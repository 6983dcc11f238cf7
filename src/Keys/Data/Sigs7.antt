-- ===== src/Keys/Data/Sigs7.antt =====
-- keys/data/eth_sigs.go, lines 892 to 1039.
use eth_proxy.Prelude.{List, [], ◌∷◌}
use eth_proxy.Keys.Record.{SignatureRecord, sig}

abbrev pub sigs_7 : List SignatureRecord
sigs_7 =
    sig "0xc20C8Cb1bbc671b641e036310028A5b55534403C"
      "e9db05c812ab4287ab46ca520b6c77b0ffa4698960afc2a2825aa4f1801550b531ef423a24578d919789cb859fab9ffe1bd3cc54ff34f9361550cff9b60ab3cb01"
    ∷ sig "0x7F74F1aca87b7313c32452b74bc4E07e3DA870FE"
        "4e98c74c90e1a43a3f08e42ab84c0605b34579735bbb24afa548bf8b7d10044e2b47a93a6c33da192720ece8ae43a59eb48b43a1482e3631dd17109f66d0389801"
    ∷ sig "0x863C0a19C7A6B22B99D1DEbC9a67B4de0707B96A"
        "ce201dd84b9d23c6804b362b86f3532dc50bce773967ffa40fffd965fb616c20319d59ba9137c292453512f7f6c74e06a6ae0d6d7b07f08b774a3c1b0dd4e5e701"
    ∷ sig "0x974A592D7d78a952d9F9DE57785380C53bfA68e6"
        "bd4840869d9187dacac2044649be8bcccdae897ea1156bac99be1827b7a6ed057fc719dcc8220dbc91154f457b7575a382210d1ed7218a1fbab7b88b3381256900"
    ∷ sig "0x8833a547f83Ce96B371a9cd4e70b304d64E0d75B"
        "8e0edbe6a2c95686b24e105e11922bf5db5832a43e657ddcbf6ed69c0cf6a3be740d15b132dca6616d2187f77aa8b43c01ae329d977b24fa06c52a5188813c8f00"
    ∷ sig "0xcd5d9c371AF235Ed5BC42eA6EfEa74F6FdcB75d3"
        "7c2e22e723bb66ff3e267a5af8509792366f4614f132e6d3eda5ea549a06b7520a0d55c0346b38f3dace010f173c0f3efb83ee4b91af27140b937f2f5fe3d57f01"
    ∷ sig "0x6b0516476d625230ad09643763027f2A01411CDF"
        "183e63e9db4c030bde7d4a2ad310d3d9ee13249451325379f42e55ef81b85d1f0d09b7f88f1c06d4e45236636d5e6922c6dec193d09b9bccb9e344142380dfd700"
    ∷ sig "0xbd59ed16b804A78Ad59F9Ad98164C882de03733D"
        "cf7a8f6e99e1bdc0471c77f0c9cb92b0bf83bfae2c8c2fd14e7f9b9ae43021b925cb2669291137305179ae0f19887f4958a82e5dc6d8233b03d0ce2d22eff61500"
    ∷ sig "0xe126188Ff29A9a0971A104e23d068cA41fF0AEc4"
        "453853457ea2db1de6a1cfa8bb8c121a62afb71064778a9d5e606ef36737b2335df976d7d516918a6bfca8a729c038b9772e64a4a760483880f2a177c4c85ead00"
    ∷ sig "0x882E6623e3e21CDC1747350CbDAd9Cc04ef15438"
        "3edfa451638d3221ad14ee6fd3c577181ee7752a3dbb01e6473fb712d83535b32c596732f3f5c76e06546509e64506e036fb7caa3a9590bdef26fa51072ce9e601"
    ∷ sig "0xcA29209F010a688A8E934be32D7a2fe4a687De17"
        "dfd4aa60c24a052914f03efa5a03a098427e0a90d7d15af544eaa37b1278fa2c3d3bcaa1315ee287548e21f8cb6e828214ae427c0fd2fb6aeddce84b0339202801"
    ∷ sig "0x67bcebc4CEC9b71b75c73250F86d3d9e5Db09C73"
        "346e625d53165430cd9e656ae0ae2233568a8450c9fdeae7c206b9ec6dbc722949a885cd9bb0d66191c6a8bd6323f0645b83f8fbaf177738a3028977313551ad00"
    ∷ sig "0x9D84752c4140af562D19184F861E5A583E711821"
        "711abf9e6ae2417f3c3935a2837f96df112cad3b75aee72503c66ac98390b6c2172c18a8da6aa13d8363fa9cf9136d9125b8f06f11bc30279e17227fc90f5aea00"
    ∷ sig "0x5Aa6AC0bc3582986818d7294fd101D62A9c1697e"
        "de8174968ff2f39a7b7086e8fae930c6b0517cce63fd94d5cb1d5098cc141e3e6562d91257c33b2d01619d23e847353c27adc51a394ec0cdfc7f7a80832b4eba01"
    ∷ sig "0x80e66C50E6A06Bb86f04091b90FBBDEe542D896B"
        "5f88291fc8873331f3bd88ae88379b90c3a5c321b87df679027d2b6f2f18c34a7fe49e383710474a8918d56c26e62955222138939baa9ffccd268646737043f201"
    ∷ sig "0x3285C5b4714aF71587F455287ab87c322EC177Dd"
        "05585b04571ab7b4207c8d0b221c50a281a2615b025efa1cc5183a151d374aa10b83014a8e6093717ad7a16afa2da4df5e2a68dc26fe19c002db06ef6ad0481901"
    ∷ sig "0x966b37180362b7E22B0946c91CE8fF0d4d4Ae3Bc"
        "b4b8938e14e5b18d844c0a9264bd5333d8a634db2591ed6cd6f86b75ec82656670467e8c5605124e89ce7bdaabfe297cb2c61cd6291b2eb2993a810e5c0ab31b00"
    ∷ sig "0xf8b34AB21aFeb119e232d194f123091762E991eb"
        "4a936e50633811a34aad1e721ab7b1b362faba814429a01e5bc8f4d29f480f15744e50f8e7e1f285069209787a8886885890ddfb48a30bcc87d30009e3b377a300"
    ∷ sig "0x3bd7CC44fc83Ac171b4241efAe48eD849bbB11f9"
        "aa75a120073d49c3d62496836c072f631e719cdda7271d003fded317ebf0660a6c1fde50a721d80ca0c752a4d752e0c295a8df3a6f3880e0cdff41adfaa941ba00"
    ∷ sig "0xA01796304e83DB905c74Bb09e2702EE667d664aC"
        "227e662e4d066078d0ffdd666dc3eba1669f890fe8235e71c0292abdb58880ae2afae6ac00482cd0ef9b8ecd37751cd7756d0ce9bd9edddbd7ac2af74ee0feda00"
    ∷ sig "0xb60E6C348CaB161b7d035415CbDBaC79178102B6"
        "48493fd3f6f55b275ec33b0008f993d9ffec8bfec3b024165fe70e68fdfefa1068fd6d67cd9dda1c179282d49dc713eedd41495788181fd4d9788f285aa7505701"
    ∷ sig "0xA6D2005C200F04e1f90D29444cAA50E728a8b4df"
        "a958fe6158e110e4337dbfc622ffa071cbf109a48ee4a5f6edd76ab7a47f27c86c50e3f4c373909c716b9cddba8c5d700369ff1d932ccaa3762a3ae396bad3b800"
    ∷ sig "0xd9f3E9B56f1b91969C2349e72E5aB5289e652523"
        "e1ad97b96331113e1e471b791e2a4b835d7f0d262154aad5ac4a6d5833092c5a1df8f4e108cd4af7c452d8f8631178b9656acccad443d86dfb0ad55a546930cd00"
    ∷ sig "0xd949b14E85725dB88962a7461b3DaBeb77b5C314"
        "d5f89d00c25628d7c2856aee1e57f1562b1a72778a31c881b3d7f011abacf3b70c76fc4d91e8f616a6198835a27a404a78975a3120b28a10c1579e28ddf30b8900"
    ∷ sig "0x1C355C65516ed8aD6523345ef4411Ae5A9643a73"
        "a2339cf9d17c5073f41882f208d929510c2b6f49b122b7409bab26288d764cdc08e72f8e808c0a87a4e872203c7ff8108da392347a5d3dd90b0f873115ad8d8d01"
    ∷ sig "0xBFaA21459ABB6811610df1F5187609A0BEa5Cc34"
        "75407a64ac119f1a64d041ac86b4697b6da8442f340340bdd00a3ba2872aa2e937a02d711f6eafb9ae69441dbdca116145e74a4cbaf590cc06cdf70f3ae62ff100"
    ∷ sig "0x6b95821a9CEcbDA8be9EBBb989bCfe4cc034876b"
        "2def50179eb18b7b86a633ef2e4dd980e5efed97b1288090d0e0102b18e4f8424de94f4847bd5e342e068a8f3fef845e573d4ea0c71fd9b5d5e705753153655101"
    ∷ sig "0x6D2a0e0528DdA4561882b1C241504A2Fa5645553"
        "9bdc9aa58a4e240f61b439b310c9697898f9ec2ce3f6e07467fa40ea90bbdb332829b208a0e35db2895c9bfaaed2bd5d1cef0438aca2f90ccf01984b4264267700"
    ∷ sig "0x1FF476C3d7c4cf5F7B177601BE45c95e89F89D1E"
        "aa6bdab9df629f75bb458a22c4b3558ac28d9acafb58260f7ee9127cf341fd1c3cb74578768ec40cbce0df21d7195f76272bddf8136bf20b63c65fd7c139e6c600"
    ∷ sig "0x603ff5e8CE6907a0F48D6c39587FE16b75D45dc3"
        "5de759efffd95a630c189d191f79ba8cbb116a5d49d08d0a6c3084220c6b29087beb0bc8777e6d0fe1263a455724ad0953916095d34a0d38028f7652652d405e01"
    ∷ sig "0x400A5A47258bF05001e3Ff3F6D26Dfb0BB891753"
        "8e444b233d4c6566e9d5280ef98f9ee5029f6d761923deab8dbaf2dd6e8baca070c51b86d512112456c4ea168a13e1f307c455b700035387997269d3fe8822e201"
    ∷ sig "0x002dC6cB7aeFF9EA19A8fb92789FE3E901584d1B"
        "05aab3beb65c9a952acf202d42654c75366de2867cb96abe182c4e0b5f41717d65672bb127b5582f13e2ca60ed9e97bed788d5b5b470f2df048c9127d0876e2e00"
    ∷ sig "0xA29c22DCd90d80390Ae7D28CF93c9Fa6B9056B8A"
        "421b9ff6e6f5a41e6386fb959e5445362dfb0000843f141e92070930eff4f4422db6ad5018d1226cf6882ca4b800f8a4677424cdab9afa6f647ee6bc7fa1b00300"
    ∷ sig "0x12F1D0B338E0373a3c15c5533b30D6Eeb8065027"
        "0b2f5ea6e66876c7cf6d9680145958ce8adad8c91f7160894e6d370e88f9465e4c4c2b0f36e80862f62ee55d7e62a7402cfd46333ba88a7542f914bb1d20021f01"
    ∷ sig "0x97FC4B039aC48f1db7754a68895CEc0E6e48b5bA"
        "edbcb9b9d273425eb84353973224dfde4cb39a9820bc078fe518749aeb6522856b981c3250e76c695c463c77440656229f8ef03dd24e1849e42ef8b9cef1a7b300"
    ∷ sig "0x24eB889A39Bc95C7eD62cF4a073009417a8e3e01"
        "b7857af75664764415ceecff07f3a13cc5a516dfa9cf2fbcde0d290b6dc3916d0fed8b4e862236d10b79a09a1140d3939674440db3b83f9b73ee1edf7138e47600"
    ∷ sig "0xF0981f261792F2305aA070846A4f3AFE9b75F053"
        "ffa024f2b5665f38b0ed52fa3edaa47b6ae46e17a54f20d3f8af3626c820e901072a9858f7386e371d48a12f0b6e57d49ce88110d404debebb529d732a8bb44e01"
    ∷ []
