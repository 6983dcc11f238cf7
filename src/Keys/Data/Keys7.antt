-- ===== src/Keys/Data/Keys7.antt =====
-- keys/data/eth_keys.go, lines 892 to 1039.
use eth_proxy.Prelude.{List, [], ◌∷◌}
use eth_proxy.Keys.Record.{KeyRecord, key}

abbrev pub keys_7 : List KeyRecord
keys_7 =
    key "ffb48810179d20e0093380ead209f838ecfb68e9d465b5aa85c489cf0cd97949"
      "0xc20C8Cb1bbc671b641e036310028A5b55534403C"
    ∷ key "d3612021c420d9a8ccf78f07bf1d59433d70d127680d031f5908fc1aa5c2153b"
        "0x7F74F1aca87b7313c32452b74bc4E07e3DA870FE"
    ∷ key "0798dfc9f97dad2d6b91d7ce30af029a0294aa869e942a5da9c362235151dfd6"
        "0x863C0a19C7A6B22B99D1DEbC9a67B4de0707B96A"
    ∷ key "3d9a8f2787359e67854075611cede73a391496749b3cd9896c34a0fb3fb95bb6"
        "0x974A592D7d78a952d9F9DE57785380C53bfA68e6"
    ∷ key "ab98a16ae0c1b41f5ccd91018347aeb1c09993ba5764987f938a5848cbce3b47"
        "0x8833a547f83Ce96B371a9cd4e70b304d64E0d75B"
    ∷ key "b54dcd1da514ce2ac2adbb0b50293fa8e5ec751b8bef0ea531084c8d693aa7f2"
        "0xcd5d9c371AF235Ed5BC42eA6EfEa74F6FdcB75d3"
    ∷ key "4816c5687d69378878d75195549ac0424983063c27d0553ce604d6c30048ddd9"
        "0x6b0516476d625230ad09643763027f2A01411CDF"
    ∷ key "5cfcb60c579d92a9dfde66684e0d088fac046804f57972755f2391745f31e302"
        "0xbd59ed16b804A78Ad59F9Ad98164C882de03733D"
    ∷ key "49cda2123252462a44047e59f3a2ec50d7de4b57b17313d4bac76bd99c6119be"
        "0xe126188Ff29A9a0971A104e23d068cA41fF0AEc4"
    ∷ key "7489f71caa55f8f226d9ca287cc0399042a2d609a056c6f373f10536311c1b16"
        "0x882E6623e3e21CDC1747350CbDAd9Cc04ef15438"
    ∷ key "a54ed0c1213d599da5cb96b1ebd09d06e287abc57df16daaa0b18394571bc18b"
        "0xcA29209F010a688A8E934be32D7a2fe4a687De17"
    ∷ key "512265995b2bf536683cb507b662150b7b7ce15954a90265a0667be389e0c4b0"
        "0x67bcebc4CEC9b71b75c73250F86d3d9e5Db09C73"
    ∷ key "a14104820af37a50f361a61a09f7850a6d98d52929b22079251224c27828a564"
        "0x9D84752c4140af562D19184F861E5A583E711821"
    ∷ key "d64a349a9ac8b2a2162a5267c70278c8705ccbfe93b9aa31ba87e06d250bef41"
        "0x5Aa6AC0bc3582986818d7294fd101D62A9c1697e"
    ∷ key "631605ce6725f1d768cb91256fa26182da0b545deb612ef5343b915192e44355"
        "0x80e66C50E6A06Bb86f04091b90FBBDEe542D896B"
    ∷ key "3679f7fcb40f43e9453c8b6bb9b4d5e51a1c50b25184c23aa2d5d2317c5abf88"
        "0x3285C5b4714aF71587F455287ab87c322EC177Dd"
    ∷ key "0889ddd3ab7ec7afeed1dcdfae6d1230949721dd27f79ee4ee66c6baadf773ea"
        "0x966b37180362b7E22B0946c91CE8fF0d4d4Ae3Bc"
    ∷ key "5bbb292af8926dc4a5ba5b82931b3d9288804eaea8b814f2bf059d6a50496f05"
        "0xf8b34AB21aFeb119e232d194f123091762E991eb"
    ∷ key "0c164b2f89d24e692978cad7b2af8366b81776cdb3fdac2875980a2fe2c757da"
        "0x3bd7CC44fc83Ac171b4241efAe48eD849bbB11f9"
    ∷ key "be1f569d936a7f62dca9de54cdf958921a95acf957e79bf8a6cedb957b1560e0"
        "0xA01796304e83DB905c74Bb09e2702EE667d664aC"
    ∷ key "3f43cb16e37959b15d802afb7f30199a4d791924ea28a22a24b7135dee5a4130"
        "0xb60E6C348CaB161b7d035415CbDBaC79178102B6"
    ∷ key "5f5d685e28f6a1dc0a2acae73b794a2c785748a510b75331e2e4b272379f74df"
        "0xA6D2005C200F04e1f90D29444cAA50E728a8b4df"
    ∷ key "fbf40888788bc8c9172c83a8298ee633373641361d8b9b148dde29ab0983bba6"
        "0xd9f3E9B56f1b91969C2349e72E5aB5289e652523"
    ∷ key "f0a515da2a3c7956736172b882e3b13d6f2622defee3399cccb40f258755c778"
        "0xd949b14E85725dB88962a7461b3DaBeb77b5C314"
    ∷ key "43ec42839da02cc15ca056e893e735e68acdfc83d024c5fb39f06fac18a2280d"
        "0x1C355C65516ed8aD6523345ef4411Ae5A9643a73"
    ∷ key "70acc2f4ebbd363594b028ea0e195b0a4d6e5597100baed683f023de69c7db80"
        "0xBFaA21459ABB6811610df1F5187609A0BEa5Cc34"
    ∷ key "54097681f9c0748fd25b33dde23e973c605a4288aeebdae9be6c93114ed1f2e6"
        "0x6b95821a9CEcbDA8be9EBBb989bCfe4cc034876b"
    ∷ key "e595a4c7592005029a2aa7bd675fb8636c9129d54ecc16634ec99dbf7c0943ca"
        "0x6D2a0e0528DdA4561882b1C241504A2Fa5645553"
    ∷ key "e562be20bc1fa2f7ecd91b3472f99e00a7687d83c66a78345647f5edfa46caab"
        "0x1FF476C3d7c4cf5F7B177601BE45c95e89F89D1E"
    ∷ key "173968c09ede2039ffe8cf5f59736550781f5c1e52628522d0c5295c330c5be3"
        "0x603ff5e8CE6907a0F48D6c39587FE16b75D45dc3"
    ∷ key "a940f74fa3733effb8da749cab8ac0fadbf72b418ea3cb443daffc13d08046cf"
        "0x400A5A47258bF05001e3Ff3F6D26Dfb0BB891753"
    ∷ key "427f942ba82bfe5fc4cdcbc9d6c0f22b69537c1536eb933fa9627662e35e5c48"
        "0x002dC6cB7aeFF9EA19A8fb92789FE3E901584d1B"
    ∷ key "541bf3e6131e9436ad3e61b3f3dd2d1a8e3721429b471371e193ef0cf3c82240"
        "0xA29c22DCd90d80390Ae7D28CF93c9Fa6B9056B8A"
    ∷ key "5148069825f4329020b12510bd18122426af1a21d10e0773257c04fb56bbe4bc"
        "0x12F1D0B338E0373a3c15c5533b30D6Eeb8065027"
    ∷ key "fb67049989e22f6a44625da68d4c16b543af2c49872625e13c52b3bd9d462b4a"
        "0x97FC4B039aC48f1db7754a68895CEc0E6e48b5bA"
    ∷ key "a4970ff51b2c18173ada777bb4017fff0de0e60caa180ffd6824abaca444317e"
        "0x24eB889A39Bc95C7eD62cF4a073009417a8e3e01"
    ∷ key "d6cd8df5fa3ad9bbfc0706d67dfc0a875e16df5e0de74dfdac9fca749063615d"
        "0xF0981f261792F2305aA070846A4f3AFE9b75F053"
    ∷ []
