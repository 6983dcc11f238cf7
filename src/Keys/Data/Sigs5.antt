-- ===== src/Keys/Data/Sigs5.antt =====
-- keys/data/eth_sigs.go, lines 596 to 743.
use eth_proxy.Prelude.{List, [], ◌∷◌}
use eth_proxy.Keys.Record.{SignatureRecord, sig}

abbrev pub sigs_5 : List SignatureRecord
sigs_5 =
    sig "0xeEE4bBeCD03793771B1d9420506753e5D980E0fC"
      "53430af5f7ecf33ab2663d7be57097a710182993e081616b585ad9b1cbb6d8163c85dbbee8a3ec50b7d94528e2ec7f9cb54c7644630535a48ab010c9c9fa443101"
    ∷ sig "0x998Dc123A1129B73B02D1ecb07305C601718f5e9"
        "53a4d1c83ddeb2ebfb9857ddd81b304c2141ded7e78944faa831814853401d0537ea7bed24628443ee2d0dc874a2d83396f4be5c9f1ca4af1daca892dd78068e00"
    ∷ sig "0xEfeB1F73cAC2BB51A7b34C02aFa518949DFF3d03"
        "d04b710859fb8412b86f61a215f73490b7fd8ec56e60c23bd35fbe54ad9ec3a1758bcc21feaa0ef48301cd82bbd80b390c3002058e82c3cfe284e4c48d905f1600"
    ∷ sig "0xC1904ffDeEAD1D033eaA045B12FEe3b1bd50f907"
        "a2c049b52f548945e96da6c8cbece2af644b0f95f097428e8d8a0a99cfece0e1020861ab2e2272e9bd3ffe23a625fdc5106f0a736e920f59f1af120f92c1929b00"
    ∷ sig "0x905FbFAC0fdF1A5d8bfd8097122E8Ff57a513A08"
        "0dbe5e8b9ff94ff143870497c5e1bcb60910671274a257cded56efd75aeaae2421837e94a5322149db4a8462f8b03920529eb9984495381a84cd11f1c0e76c9001"
    ∷ sig "0xa2C9e4320397870617De7BDD2a1b9a68A37525eF"
        "7f00c6dbee292f50fbcd830c119cc553aff6c907c634af06d7190870aef0e8e0297aca45f71993a2485443e8b9100c668706a158bdbab456baea326cfc36382c01"
    ∷ sig "0xE89f51A63739C80f81ADa54D458FCBCeBEfA0138"
        "716f6cdfbf47fbc1fa1b7044c01c753a8bdd59ce48ebd8e503a280a2e91286e8193ea1cbc6eebb94a0977706f8466b3720c0af3dceaa58e946d5a9f80ab48b6800"
    ∷ sig "0xE99330dCD8385307AB899E0f9d06D739DF648e98"
        "72a334e1b9c5e7a14830f961f30826e1ca56e414e581e07b4bea07d411b073d271374f99ee5b81b9b4f73133f1608881674d306755f3a7087ae2dbc79710f8f900"
    ∷ sig "0xB47D3B642E06a04dF4f56145D67aEE0724474170"
        "38463b7a5b119a79dfed4120883501c50489eb9d3972a9654f766fb727e2db5c1ed83873d35b912dc435d63875bf66cfb7cd1eb8e779a54b47ec53fd489eb77500"
    ∷ sig "0xA79981a1E51Df67E1EaaD399d7e5767b033A6625"
        "14b739529b647e5412b5324bcaf57fac7537c23c2fc23a7125ac316e09f863214ea39603d7eb720fbd826b32f107767c2d58328299b48c016352ed0e208fecca00"
    ∷ sig "0xdF998e52A5751cf67B0aEeBB1C05A59EebdA13C6"
        "b073b058c022c1a132a53359aea0b13ec511879f661d974a6f7e693a96eec024265ca9c23d4400e67da5afce76a8b7731997be0d58cffbef557c6e23466ef58f01"
    ∷ sig "0x6dEeeA95094c50dc07E7247be801C00d8Fd4Dff0"
        "7496a7aee30f985650dc8ce7e199d985b2f10a07d0dc314ae6bdec381780c0900bb362fb095d2e679f85efe1b00aaadddb2c2aed61fba300ebb845f74153abcc01"
    ∷ sig "0x5025bF6157c26CeE59F8d341ac49d3817DcAA5a9"
        "a163642e823f4b7166d8291215610946c241902db92ee60ade1590f4163a1b6a2705196cc99a5a4d3b2c60a08a07fc8f9e196cf2b100bebd302419ea84c695bb00"
    ∷ sig "0x673D0c644f3340dfa17FfFB7A3bfA14c340c7371"
        "0a26028dddccc3ae459884d46d3a106ccc913426447810f341b38dcc06db41260aa0536fd17a2971a2da7ca6626b8f02915583f64ce26ccf66fd2d090d63afb600"
    ∷ sig "0x40F64AB6c10A31d4657080B8386cc6c7a23bF180"
        "1245da93415d8dff5c348be1d7c72225b9a184e2bc332ab9b78f3f22e3c87aab63f24b8a551d52bf4c96b7786fcc69e8cdc2d786c3a50938b4535528663474b000"
    ∷ sig "0x163BbcdECe1Ac3Ade48a532923d547294DC3B243"
        "94ab0c5c7dc8fac4d1e2e12760f8ab2365dd0dcff4069ffeac2eb482bb5c68e344b72daa893c083b656736b40bf90584e20c6af2e3930e4456eedbcff2e8e28801"
    ∷ sig "0x1cE80A0978dD3d91052d9237155Ebe5F9e750ec2"
        "43d66554ace98a41125adf29fcd489313a44977d6e5f719abe07abcbabf286ba6e731f04eb700ca82851398d15180f18610001f260cdc35448f22fee8b3df32700"
    ∷ sig "0x8c7B87C2b588128EEbC5D7C8f72366Bb60b08648"
        "ea9ba55bb0486be48f8e1b409fb54f30c0f32555bf47379a3b88407f8902763d734a83f41956e18353428840372bafb49835d1ba72ea900ae65fa4ceeb3dfbb901"
    ∷ sig "0xe1c6580a93B17b3B8d539051dB7abC704984C327"
        "eaa747a44ddf98831a3b66836d1f6658c9c5d0713900126806042a531e2df8a32c5895fda50f8bea319fb91420b3b18bc47ca2055c2a8440042ad0aa3c1567b700"
    ∷ sig "0xd05E8b9d5b65ad9eE35012a4beBb6F6dB998331B"
        "fda5f883ad3b705d8f31552946b2c55dc8f802043d3ec7afc8e8a2c05ea301617b7f7ffd8e1bafd13cb4762ebc8f34fc73621557c5b8645bfce03f871a9ac56101"
    ∷ sig "0xEF49B4CeCAd16b31210c94889de105472974ECD6"
        "2060ca51e9e83157fb15400656e4bf620f3929c3d9cd73570c245dc9e1920d3556d4d960ca2a76321b626b616a27c578afd8e88ebf2876c23493236ea656bf0200"
    ∷ sig "0xDbaa7071519069609b4353cBB360d9eD41C18E7F"
        "82d16a5992bb0f3b462b9e48076b75f5c974be79eff000883b41002d79c1f1c604f120ce86cd8fe2c68a89fb004cb1392334614885623af5a81bd4e0e593bc7900"
    ∷ sig "0x9359b1cD00e27C0D647804F12A0F6597a290735b"
        "ecd6d31e2620ce065c3e72e4ca6f01fc55769061df5c463dc34e266390e2d1111f35c4e6fc08bbbcb062a8fdc1a65c9855397d2bbe3df6962b62dcb5847eb48b01"
    ∷ sig "0xD5DBb74F1B89C6b91c9e8cE09cC3b0222e42fC83"
        "e24997323fd348a1f49dbc45415cc3356c307732f80e7e3669b80c10ce354fde61ddb4a2b4c70390d42d2c662bee058ed7a00ed0ff81c88d3dcbd89dcafb381901"
    ∷ sig "0xB550dAF102D1A7403520dB952A05f9a807d48449"
        "849fe2d27394408b8403e0ad6757036907bab34ba7982e6ed0bc6c2de6cb801c380fb0322a25ba99ab5cb8c9b53590cd39233f4275a04cf5bd8276ab9044f07a01"
    ∷ sig "0xcb3011036349e38c5dEC566A1972D59f1d6471Ae"
        "d0ea083c966e36a78a52aebde393e531e883c2ff9e32fd20c71661bedc0399747f89c0ef7bfec3bd75d8b077616ee6ef33872f5a55d74960a8e3a9cf0bcbce0500"
    ∷ sig "0x95310DAb34769A7eeAcD5f40C8C77F76A6e41dB7"
        "dd39702e5f26a88f6f7a4062ec3fd24cf2297a596488c60ad7c59dd56ac309c6377d577f833ae0dcec7cf47ac55323de63253b8e857d8034a5e82034bcca48c700"
    ∷ sig "0xC71728A396cAFb8aF65fF4C462F889CAd8bCd531"
        "7f7dda5379b066bae004208f6bcdf51ff93cda2e54138d79f665bad02651a00f7ba9f3638f1af7e0f9116f186ea3f26452f13e3e44503f074dbe495700b8925900"
    ∷ sig "0x24f315aC2b249e4dB8A7F3a2C47626318884D58F"
        "d511cf3105accfe5c390362ecbb097c8714ca1f41ff7ae62954b7fc8cd06e8392b20a2e7096757d617a2665fab564b8d4f608d699c428e3369db9bf707c642b601"
    ∷ sig "0x7a3F6DFACF4E56194A962dA9964F286ec1D60A7b"
        "eda7fe3dbef701f93bf919937aa4d037d6db50128e3bdaf7a26fe12beb26920f5307d81f19ce72e0b764ccf3797d21dc8d1602d6d2d7e79e40be425e2183db7401"
    ∷ sig "0x4E1c6EE51941C3378B1065bb65aE8a8FdF05358f"
        "b082db478fd745a982aa0e551ba6e9d18625ce25c0cb178e28c256275f6afb6f520def24bd0525fab1f6b8787e27f4113326a2e7ce856c0ca2b7a94fc559419901"
    ∷ sig "0x30CDDBF55FeAF9557C840cC80E42ef9a8e11A153"
        "6f8bf1d5add01ef20f565cf4609b60cd3657e05d5ae96f731183a82d2adffcc175b489ad2f1af1c70333ec138062fc7f0d08c4968a14b93fe9a13f6693fc80fa00"
    ∷ sig "0x626De66a99235BA52fc382816a4995A9ea6F4feB"
        "1a29e8de8a40c77b2003d2c3e524386d63548eaf31e874d7240e53a72d444f7d275cb970d98cd7d6f149efdfbf66df2cd83e8c25bba61ae7900d97fe3d88c87701"
    ∷ sig "0x9574B8309652A3730bf1D930aFFd565161cAd0be"
        "58863f23bb80ec3e2891a0243d29c4d36e7c23507a2f46d3b4cdfc90bb1c16bb3bfcd30b0b903a28d67e249885a744d421f0ba5462ddfe40453d4755d4ba3c0200"
    ∷ sig "0x03dA95C601CD106175F5082c5c04fDFAc1e382C8"
        "bd5fc1a28ce70ef5da04c4c9c1dc3f7626cd3dd5806410a1abfb4e1797f529b80211148c1d7cbaee06cca9bf2985313a13b0c532d6884739cf2b9463d4af1a8500"
    ∷ sig "0xA389C6e34039b4Bc31De72C18A99B68CdCdb1D03"
        "696712eafa7972392cbccf0bacfa645c87b161835febd1202ef757ce0e65e1aa3579f2ab5c2c3dead8fae2f6ee9eb7aade7b5169aa23f3c9f55cff8410829b2a01"
    ∷ sig "0x9669f6147F7e4579684d8b48d063f8C44c629A3D"
        "78f8b2029c569c75acd5ab7a29d804d18b915e3da1ab9c61dee92f3a26f9540958611f059682c01b1b466c1eb8fb62e07ebdc3d6a7996a858e118529deab8fc501"
    ∷ []
