-- ===== src/Keys/Data/Sigs6.antt =====
-- keys/data/eth_sigs.go, lines 744 to 891.
use eth_proxy.Prelude.{List, [], ◌∷◌}
use eth_proxy.Keys.Record.{SignatureRecord, sig}

abbrev pub sigs_6 : List SignatureRecord
sigs_6 =
    sig "0x619db3d41A3a26FE97ee9b2CC988DD3E1E3FFfE6"
      "668aad3df060c57230c22b1b66b1182d020bf032cce7c6c93827fac90eec89be56e95d08e35f363a67abf472c2083238b3918e7c3d70e5b3b56bc730d06a156f00"
    ∷ sig "0x5615FC25c3c748E2f2d770A4a5FE7d6182aB68D2"
        "e7ad409ec064de1e8a130ebf104a332df0d5fde801691c2844db7abe73b90c4b2759229f0d217b0e474eb719e77f4f896103329a63a6f9da3b74b7d341b42f1600"
    ∷ sig "0x9931262a8c2d1345E94960F35d19f840e6A260a6"
        "601a8ff2904cef6705e5f4336f090d46b6152002d4175c3a865d169a3f145ea65148944d0929ccbbae8bd2e5a6e127008b07c98beff8aef6c168de264d33b43601"
    ∷ sig "0x7BA23953ba270a96453512A8C1D3320f5223241b"
        "924a095d526263a4c5d218150f9b2585ef954012ba431a847e0fc750377568a52528dab3596d64e8b341b2c1e642a3b2334b77751100aaf03f16de7c80e1e2a800"
    ∷ sig "0x7311256198600F1df637adf8EFC60a057D7F702F"
        "b633b9b1e07cecd59e6ef84da46962e2996c941d98cf7a2791adbf72e5978c6b4fe99fc8904399b8adbc8790aecf3e81ebc850adaaef154873cd0f3061af51dc01"
    ∷ sig "0x68f8e110d70448DD95354775A5476728ea0Ee8Fa"
        "ad83664811f5e5a97fabcd8b8f76fe93bdb1495aa165a627e77e181d7d73a43b2493b123557f91026977edb9220d051e2a52f9fb157ddfdb9f24703f602c024e01"
    ∷ sig "0x96D1D8dc83521509C708c73e860D2734f12A2F1B"
        "87baa0ab7945c6d200c3d6ffdfdb6f0429dd035bb0850b5c13a93e5e0eb6dd4d724f029ad03cde5d42fcaf0b1f60697d3e9b162fbaaad8e6e191953551bc3d2701"
    ∷ sig "0x28949aB8d6530F6Bf86d337995658F425a2A205D"
        "a342bbbe96d39cfc62d8ef90d24c22650ab71c796e154987a099ba948a9fc8e042fd849186e6a150070943395bcc79dada5140f44dfc27b70d7aa51c8d85a89c00"
    ∷ sig "0x397ca020d39c234FC836eDAC7D63123C958c2928"
        "a4501d4bec4a96ffaa1cb09f5f3045be7fb8710b16273ddb115e1d18242ad2825d8f501893128a45b2c633a84fdd59652d320e663fdfd9960afca460fa107d6300"
    ∷ sig "0x6Ff763E84d22b9DF57B07559E51B652206B54710"
        "4721a9cdf861c217773e215ebcc2a66a4d0402dd5a576c22b70495496ab1deb73984b4633744abba2e394ffa16b4f20f6155621e8b4aeec4dc52cc8f2cf85ec300"
    ∷ sig "0xBc62BE7cc53f049f443614f42800D929cDE9aE80"
        "289f891e30065476ffdb9b3e4ea6f8b546ca2649b1bf2f1afa29dbf5d6db5c7e175626773a63e45f3d1d475f19905b082b5727fceb30d69f7a2158a7f100d75700"
    ∷ sig "0x624b3A6E430397E47DEfdaA0D8c1C32e00cFb517"
        "6fa56272edb51f611819bf78848c89c2cb311cbfe03205d1f2f29751497cb8812a28e6dca3dc1d63ad9018f79283d33bd2386e011d672f435b62193f39638d6200"
    ∷ sig "0x17d38de449690385b6888f37c5d70c8220d24692"
        "346fe5122c13428ecf08cd8d5c0258596dab2f63f7ea6630a57c1502b4182b764ade792a5472e316302d47e0d51968dca8cd1768163bdd223a11ec12d7a6044201"
    ∷ sig "0xfC39ED728069B8dab12e8e0810e3766416461Bf6"
        "b00c20cca68986fddd0f4b892a975874f9d8348dc7eeffddbb8dbe45330fdc0347ef5909dc797edc174e004c7b0d9e9d56291e0ff0901094adc7e614a982d83b00"
    ∷ sig "0x82A486d10986c2E2E619Ec9B2D678C95eb3cD335"
        "0fa115e6d24359e2ca16ff1ad809b3b0dbda2b4d4005be9cd28c5a4c14d0763250baee9125cf880305833f3bddde9b8ecc379848c81bb83d275a0090007a02ad01"
    ∷ sig "0xd7A44025D331d5dA09bb326ad3122B929F5CC0CE"
        "032bbabbb1a1ab9b3c8623a54d699b33cde96560f2a82efd9332b5b8bf2f37a9513ecdba23ebd23e8c123b9e63e7bf951ad4ab73aeec0fbb966fabb2ea57eae900"
    ∷ sig "0x5F5737B71694BF192c2Ad52c534a91b9Da5746Dc"
        "d5af12d6e18be28fad6252edccac3cb73f56106ab43859a6b1895e3eb052b94b208f09885a0240e79f9eeff2240eae29df9aa536c7bf6e11c7cc11dd56bfd6db01"
    ∷ sig "0x87fE2c281396379d62E50FCEE58fe119484653c2"
        "71a1e927edf1aac50b3c0e57f1fcca04eb8a3279443ad63809af48accdb9deda6040e639430ef2a171b148ee67b026590e24aff9a8f17b60b71ecc3eb2b5eb7401"
    ∷ sig "0x16895f28a89bDCAf2563196a977EE57E27C75b8f"
        "973098c6cb28a11b23c7491a9d93858b83b0d9f5f230e27d9f85f3341de96c951fe5f278881b346aceb71bd96d2d681468d0cb29878151eb9d00c614823da04001"
    ∷ sig "0x9Bf74cD38Fb41C9C1C6Be5076960AC12d98aebfD"
        "8f909d4c0df6977bacf5a563f4a692db0dd66f0cdcde301c6a3e813b0fc0e3ce2ee0722d2d410681bc068b3456279be173fbcc709899b46c772aa9a38d7efbd400"
    ∷ sig "0xe8149Ef7B694D6f69F6e5566807a18793F5AC8Ce"
        "0c2c4fd070513c692ba9a9f1601c1302b1d51e79f9f91953ba532960f2cf3da24c6b66522e4d0da3d61479ad1aa8c17e7d1c7e00e165c5faa5bba12d7be699a000"
    ∷ sig "0x09f8C9813c6433395841b8989de32d273B940bdc"
        "7a7e15f976a5534adcf2b2d2d6bb356f762c6ee0a98f996b9bf39184ecc15b3d068023048900afb5582ec94abb985dd472d52770e7917d1d6fd846d275dc5f7800"
    ∷ sig "0x464c716D9F2c6D4630CddD4D31F9c467E3D69aE0"
        "f2cd4dec048019e026910b900a7c03e22a88fa6e9ee4ae7b76f21f5751fc89973c78c6513bedf150163f04d2101b095e5e5cee680e32b1e9c514a1c7f5ff460b00"
    ∷ sig "0x8BE77661E1E04593eAd382542fDEB920e0e9aea6"
        "4772f25b9c9e87d17cb01641973d4f7206e0962263f1f76918752229ba0f98be5732dc7a76cae1e6d14f0efc9c3eaaa71f1e48bc072061dd0ac337036af595f201"
    ∷ sig "0x92c175dec186Aad5caA1a50D0F8ad7f6D783e255"
        "e69d492ca59e36e40cd3189d92ec63c073d51e38da066be5427b81ea8979fa102c7dbb403380ced0e68b3de32ba6aa088fd0702e9dc7d091b86e88e66924cc0d01"
    ∷ sig "0x1f909fe4322bE2803cB5438C3392ACA6999c62DA"
        "493316f099e64bfc33085ebd7da848d198c9543ea732da1847a206440b1b7cc1504f61449dab21822f158ba5f7ebd724b9148663d8cc23f0ff678a009c28fe8901"
    ∷ sig "0x54E809Ae37ccf80eb3cb7b5d0e13668EcFec2f66"
        "d3a12d7fbecfe6b1887ed3e902651d9d6f2c7735f3ed43ad09970afe544befe05d6b106d08bb2797f54cb9be65fa0a8da5035d43d8b6f5b50decb34406357c0e01"
    ∷ sig "0xcC3fA3d7DDf44f934CBfFC445C7DD7eFf6B84412"
        "d378a3444d18b952a5c09d3e680b547a5c95f59b2c875f915a0f8efac224cb004cc515f8a80dcb2c526a2bad3067a176809f99ac93c1ad4531928b26f526229c01"
    ∷ sig "0x0D8128a0a736451511735A98034563C5C3207ffd"
        "807c203b7ebd761dd5c4cae7a0f750ec9e7dd901224a0a1c1ae18a4576999f3d4dad5da9732d65bcb19bc4451e6934280bcc3a67aa3de78aa6c4e03f41d60c5c01"
    ∷ sig "0x9e5570155345EcD4c641598eE69c533c951b949C"
        "3696a5f950bd04ff28ef4590306c5db28b9ce0c2df9008a8c0c12728c6e4e2b04916708a14e723e159660ba638d10229cad7fe6cd649db349351a54ba03ed57801"
    ∷ sig "0x0Dc1D56405B31E6B0f410b855D9317BC51862Ad4"
        "59ec6b4d0d96698398ed610550b66ecf0451b342be8b97312020603a5d7cee603c49f9d908b38287fdd96ccb6df3900a8cea04f1dfeaed589466d20d9b22f82e00"
    ∷ sig "0x98fF031F034EDa62920B947270EAf9083157d6fc"
        "3541666049f0ea3b622266b1314371ebe53802d6eb99690439e7085c3ea78091317cac1af81e63163cd5131979fc6eca7d21fbf12a4037b1e0c7bf37e2add82f01"
    ∷ sig "0xc3aA31fF73e6CbEB83C2f151632F11c2c13F1ae0"
        "0f479097ec0c7efa4ae841b0405dc8950b842fe2f526f102f7b6a193664962886753afc506e986b1365152c112a188a484cfeb075dfd27ebfb8d3b631ea4a3e501"
    ∷ sig "0x39A0f3039FAbbEdE181467E6920fb796aE984d1D"
        "0d3a1ea7e5132999eff230d366031ad461cf4a8d68d41c3c4f26c98a78ecf21744bcf99bbdd2999741d979568d2787daaf87a79f8432935730171f86fe44c19101"
    ∷ sig "0x320f9DCdc4BB59381bC9d012971c7b9713F63f7f"
        "2bd27df512ed28fc9126ad8550c0ab86c4f6270064f4d4228fc3ed9b8f32a5e4129caafa383ffc82ee560664d0afde79bd2f3af3a6ce4becdcd83665943885f200"
    ∷ sig "0xeBe50511223aE3a68d5d4eE316bd4aAF62e92D20"
        "fbf839f070048feee751924d2dd6f9301224100f4102904322f19ae011812edf20541cad4516b536e2a95006beba114876299497b98d7de1136e380ac40e8a7600"
    ∷ sig "0x4435B143E66A18098A3f7f07E4863B55986fC0d6"
        "44b02f1e25574779e4ae10efa0892673c63061e8222e821cd53d17c47c26724806114f68689f157f7f0b23e9523caac24cf90049d757448f0c50b59bce552e3101"
    ∷ []
