-- ===== src/Keys/Data/Sigs11.antt =====
-- keys/data/eth_sigs.go, lines 1484 to 1631.
use eth_proxy.Prelude.{List, [], ◌∷◌}
use eth_proxy.Keys.Record.{SignatureRecord, sig}

abbrev pub sigs_11 : List SignatureRecord
sigs_11 =
    sig "0x0E10C42A88CEe082e15cCD6426C8CFe2D1Ca7FCe"
      "a9285d9ee42e13ccab0f545bce1f951445d05cc6ebbde0276fc78240904aec2f534f5f279f08c89d9c87ff13cd2b0bb13a7f091af7a92a890c21788f81a1e34601"
    ∷ sig "0x8FBbb5EC2700Cd5f1226114ff9f13D1fd4e1EaC4"
        "f1610a73f9249dc59d220874fd743f2a806806c92af5ae2cf4e94561e1914ad52c7c11a8e64e0832a748922d155521f25fbb682cc8c4f98fb3672bfac877a47700"
    ∷ sig "0x709609a8c01851823D9633a32058c68CF54F699a"
        "9fa98047f77668d095297a0833a8fecd14b02285d500fff25d813b1ce1e285470373ac68f1e6ec1d6fca7daea017b2a24730eb011642c20d7fd1154a50e4972f01"
    ∷ sig "0xD7dd5a970E27c783915AC87Eaaa312855f299f10"
        "e37cda5551cf6aa2225dd4cdca1a0df66cec250443f4fe2eda935e4c9d46b2ec0700d5ba6db0a06bcf6d2d39d70fa4b9816835c0beb6d96c2591c68e392a8ab601"
    ∷ sig "0x9c942E75bc6933b419Be30F96D5BdCd496133aFB"
        "a1cd8f3dad2cd1d2c2d816790f0ef59d6e97a0de08d04072eed7988fb574c9fb66e67f8198003d0bf7493ea9c942eb3861d1fb36f584705c161af1097bee4feb00"
    ∷ sig "0x33495B2818594c2dA1F4D0C6C342236E2C8efFE4"
        "7d2fddc59a2a13661da775f8009ea9f7836d3d4dec212c9afeb9dfb30879dba124e5ca1ae6e3e75b27d59a493aad7b6a9f109988a586b8e7940e5c7daff2187c01"
    ∷ sig "0x8e3C211D22423eb36595E7700d28FC5C281F8a82"
        "f974a9bd5f2cc99e79dab2349f6eae3e3358e76a6c6e975214211b19824f6fd81021ad4945cc0bc363db754e791edc87091338c42ecef32be9174ec53674f40200"
    ∷ sig "0x6398e3E899cc8E795eedb6C035981BB9Fa8827DC"
        "6915bcfd065adfde3944592e60f6c4fe436d1606fcb632ebcf34aaf265a74be20f86f4696299f4056dc940e2355093069eecda9166c1e40ea52fb7429fc1bc4d01"
    ∷ sig "0x3c93BdBD2372970A8e8f2d381E167E99a4dEDf5c"
        "c4e939ee5838d3726c309da9ffbab06592ed73b752af3d2cfe433f8b4227659c4301d7075a2ee129a8cdedea8fa3a9fe76a3ed545855a5f0a41a5bf5be925b1e00"
    ∷ sig "0xf57596ba7FDcEFE31Ed4350887c842FE5211A64B"
        "44e837ea430803d8e7793390f1d22d2bbd15a9f3bd4742b174010f761747504a0d0d4981997e82a7e6a005d2ad3fb49c168cd31ecd7ccc4000a9247348a9e1ad00"
    ∷ sig "0x538f18ba645642421E92F6409CF8b1C713658daD"
        "19ba814536ceb4ba85fe59106ecb020acc1966aaf5d077039c9bca9c1fd60f9329f9b5a70014df1300a2ac3b34d386e5830d6ec13c376817137802fff159665600"
    ∷ sig "0x322d2AF1Cb1263B2adf7645eACA246DBC3593cC2"
        "ad33d2523f323b3b53f6564e50a1f27998a29478a43f7d51fe19b5d6bace8ffd7db779860d0c1c1127d91af69e71bd2a61aa2b04c1595088fb718513e0533ef300"
    ∷ sig "0x73cA0Dd212C8cfCb947E04ADa1a8ACbf1d4bB086"
        "be9c7e0dd96eeb7f06c62b6f1b549aa122055cf82140b582627a093b00936c7b5ccb3e2f5ae55c43faae93d84c92672541b83ed2d858b59ff3b15bfa0b33b15a01"
    ∷ sig "0x596B81e87F1AAA5820d83d8D80C6165172D33561"
        "2c2d02bc17d89076ae727cede695443f46529b7978295ca38e931d6e640e4d8f6016999332c089c58cf14e40e5864c53019feecc35e41c3677a941d6ed38fc5700"
    ∷ sig "0x663c828FeB2bcDe9e513575A82Ec28009D3eB715"
        "2ada000347c890ec99d30c5ebcc57677d15bc3efa5dce3804355c1a21e6583314575e2321fcca10ac079ec7129856c3780b9d837636411e873cf14b8b7a2572e00"
    ∷ sig "0x6954c57Ec08bDAdFBF51D4c6fc9CFe46B03EebF6"
        "b1933e50330a6aff7026502e3b76eff625cd31f76396bdede873e35f191a745e49ea5583fb8ecd3de0ad6b2e5af2eb5ed5168f04b611596d98d616fd04ebf20d00"
    ∷ sig "0xb99b0D6841Cd154912C3260a3a7A962CeD7Ab066"
        "3d19422d3ea6bb4da61db1f12f8892151eb038dea8f0c5c53b13b052da60a850387f095b1337689f226853374e22a61012114e61f9342c30f205c82dc61a7f2201"
    ∷ sig "0xD593b063Abdc367DD822c7971A378f06bF6a5fE7"
        "078351cdeebfdb334ce32fa196489a5f9a8d63662dfaf43ed945db17de9169607e3d786c6307cbb6c20fec7d9ef941cb8c1e05d6cf6a728ca9d83d61d5fa9f8d00"
    ∷ sig "0x4EaE012D27dCec2fbeB1b8825256624d6bf0c0b8"
        "1c9806335ae65cd7294c9a38f73b2040f8cc41da8563704e82fbf83fe4a30a846f14362fe0375c360d97edd53786e6285da91384692f0a1262f080769781fb3900"
    ∷ sig "0xb2665b351003a873CCEDDF8cA698a8017544199c"
        "b0260e791d6a368c931e922f906a5ed08d9fcb5532a79bc89aa2dd982d8e22d27da1589fe8e128d020c7b299eba6e02d92a63f829d6fd78983bfa29bd89992fc01"
    ∷ sig "0x74Df59A5350152Fc1C513fd81eFC44E1DF723649"
        "9a4612b6c89fa7388a12c3a08ecc300afbec817b04c31af67430361b56a8c6ed5db091de405d601bf267fc055dca62b9ace44db5a23e53ce9da3bb3376fbcdde01"
    ∷ sig "0x54EC04e96c70b55838A57d684575916F0Fe975f2"
        "eb7fb69fad65e3ae6b8d05eb1aca9b0abe26ccfe700e57fc97fa52f721e2b90631075353974229da9452f0570cd14530d97f3718bd7feeb439bc2048406578d400"
    ∷ sig "0xad71aa86b1b84440b2193E3875c351A3A041CB31"
        "c6b2bec0e9d359cd4c424d3f7cfe13df56e33efa9ef468b46502e15a1d3af1770f588c5de12d9f9172942ce752428d6664a4c91965d00a35dfa76cd6f549490501"
    ∷ sig "0xD54ff9889CcA783d10108B8b410e1C975053f39F"
        "2f52537f627b0a35b12ae544f43191870c5e4cdc2e5631fb0b11531ce5c8cda00fd5b7e99c08a80e5b423e9f35336ef88a764658c9597b0a78744ff0a679d28500"
    ∷ sig "0x5580205e33f4bdA61674A1740F260A202F9D8986"
        "4ecb6f74b4f5260466133b67fcb9725c04e8e487cfcc4bb8c09575111936da367fc1949427e2960903e4436aee12a075885aa37a6b3cfa6fe7a0bb8ac548828701"
    ∷ sig "0xBF765D961fFb8dA6Bad5449AE8c8f3357b820105"
        "bafc4a01a536ae4e81839e02147f9413206f6b3fae81f6cd2ad4f9db6f5338d47508704e6ec30be406138fd54014f4708c2c82fdc86eb9d5d07b6997d640117401"
    ∷ sig "0x45031a0E7AD6fC2207c8D9595c0001659e261691"
        "58e9a46bfedff534f7b65e1ca281324c2b530daa3624d14e545a94df5eabdc682bdaadf995471c670c0903e0dc3005ad65ee56635f963359e5e49754cd35293700"
    ∷ sig "0x500A628c1100127Fdb18d358c09E0Fe176B68e62"
        "0c5e99ead01e0e4273462a629f1760431a2cdb67c5befc3f47d4f4ac35ae138330527a2407081f89dd550cd68d62e90e8873721eb1e353366e0573b676c34b4100"
    ∷ sig "0x4c9F04Cb129e39836e957CDEA9F731cB637b4C80"
        "85bf803be49ea1e27a8808a4c33d4bef47434a5af32610f5a127262b2e1161710f6c46cee30608ba74109907e3d4a45f80210ee8b7e9da6993a2adc1d107f8ec00"
    ∷ sig "0x2Bf5aBF3425C198456490c9F9Bb467D9a913A3F9"
        "d57f9f0dffe30faa04d8cdbf1c86b7532f871646c706f17d0b99d518782566aa24d3707938d839862f7bff6a290d906fb7263e24200db896cbdd4857653290fb00"
    ∷ sig "0xe10D95bCF6a85054ebec4072FDFB14c5de60aA99"
        "59040ab849b55a8840dd5aa771c6053feeca4b42293fa7e2477cc5d815a8257a6c02bb3476a6289e9ba2a2befea268de0aeae1eef048b67a2c83dc5a1a75dcda01"
    ∷ sig "0x8927b21cB5519Dc997ed2efcD514b3c982038b60"
        "4f68b10cd5cbb563acc7224f43636e8937c5ee4d07c627133dcebdc17bdf22af1ace0efe08076a17897ee17681142dc2f57a5fb14e8de12859ba1ec2496f3db800"
    ∷ sig "0x7F33A9d5ca937DeF4Cd2e444A36b3033245CCC6a"
        "ea9708b4e035d8bd8f7c680e77f745bd4fd93ff95fbc363454483ef7ec7e932b2893e06f65a5e8afd331558a98f6bab6d299edfab37b02380c29d499c37615b401"
    ∷ sig "0x3D832D98f3ed58d7925CDd16C85e1254e8717cF7"
        "37aa06a51ea411426f72bb3de97de088d301016e2efb34b6f7e6a92ff5cb9bf26c45fc4014f6b9162b1e5db2156a9c5bb94ec28d1d6b12cee2d8b774f9575e2200"
    ∷ sig "0xDf514Bf2b50a8450D4cA309bB575af5A0babFc88"
        "7d1c038c65cd7d68c15d43234fe1879e94ddea0830c2d618440cc99b70e123a36f6ce4d301382ae971b0de64db35a0e5e1788281fa1292f5b76a4d2a94e52f4600"
    ∷ sig "0x6F83Fe23B48924253eA61643d21b3d346d8f7122"
        "45fa0b3de99656f0d027d035adcc21b90381aa7635befa5600b7cd15993c9617275a3a30c53897259e64d9f93d0204419080469b1b80f40f4cc59ab6ae4cf9a201"
    ∷ sig "0x175CBBa96Bde76Fe93cA84de81e8a0dE3b6a189D"
        "566673cca5a6b77ac5e1c8cb33be5aa363541f4bcfe29ae0f4057efb53e88dcc3a7711815e78ef38c8f38da8bd3ea252a47f6c48f150957a300ef9fb54c51bee00"
    ∷ []
