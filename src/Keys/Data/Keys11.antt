-- ===== src/Keys/Data/Keys11.antt =====
-- keys/data/eth_keys.go, lines 1484 to 1631.
use eth_proxy.Prelude.{List, [], ◌∷◌}
use eth_proxy.Keys.Record.{KeyRecord, key}

abbrev pub keys_11 : List KeyRecord
keys_11 =
    key "43feb0abc24955dbbf344b14d43473fee3adaed8ae172e6e7442835d5dd72600"
      "0x0E10C42A88CEe082e15cCD6426C8CFe2D1Ca7FCe"
    ∷ key "5b197c9dba0d3fc1609151392e4b2db47c7cb5740739b0eb4cb49fa25a257297"
        "0x8FBbb5EC2700Cd5f1226114ff9f13D1fd4e1EaC4"
    ∷ key "e104c50e3979a02deeab444fffd5de4eed6d8ce6ab3ed8ec6014a562492d07c3"
        "0x709609a8c01851823D9633a32058c68CF54F699a"
    ∷ key "e4fdc812dc974e1501c1fe55f9c132fe4a0384a55180f0b984b459bcaadbe1a5"
        "0xD7dd5a970E27c783915AC87Eaaa312855f299f10"
    ∷ key "fd0f914a1f66d877034068c2264d450af6cc23a191771897efc943940e0e2f66"
        "0x9c942E75bc6933b419Be30F96D5BdCd496133aFB"
    ∷ key "418cf7cbc1ed687693dcc5aea63de8640508c6460f0b75bb88ca809bc089226c"
        "0x33495B2818594c2dA1F4D0C6C342236E2C8efFE4"
    ∷ key "6a494ab1f489dca26e5451aee07b8e58095691c16fd1f47fc3ae272b075f1b9a"
        "0x8e3C211D22423eb36595E7700d28FC5C281F8a82"
    ∷ key "106c981fcc1249769ad442ca5e5e952fecc0afd98a98e72ac50b3f4dff183c40"
        "0x6398e3E899cc8E795eedb6C035981BB9Fa8827DC"
    ∷ key "c1a5daeb915ba00e568cb89a4fd88a1054482d1b08473810f97db8f8f69c9c52"
        "0x3c93BdBD2372970A8e8f2d381E167E99a4dEDf5c"
    ∷ key "c449b8e2e95001529cbcca22ea048f6b6c08858fa1665edfcdc390ba91523693"
        "0xf57596ba7FDcEFE31Ed4350887c842FE5211A64B"
    ∷ key "34ddaba9c642d4745c239d1f1e3233fdf4c2c7b0dad6a8844c22f7b22d00a34f"
        "0x538f18ba645642421E92F6409CF8b1C713658daD"
    ∷ key "cc40f6ab373abf757f40b57dda2a3d78746a993f434904714c7de23f774d0b8c"
        "0x322d2AF1Cb1263B2adf7645eACA246DBC3593cC2"
    ∷ key "355016bfabd8436e9a70902de6198dd8838e411c4120f088619ff477a7ee3785"
        "0x73cA0Dd212C8cfCb947E04ADa1a8ACbf1d4bB086"
    ∷ key "00b38921d3cfd7b7e24ac5fe9b9583dcfbe8a57b8c07f8502989d0bc1430faef"
        "0x596B81e87F1AAA5820d83d8D80C6165172D33561"
    ∷ key "742a4dabecc1bc03396ab018710b45dc41d75bc9f286a61a3ad84cda51d54be2"
        "0x663c828FeB2bcDe9e513575A82Ec28009D3eB715"
    ∷ key "bbe19fb25632deed813af9b09f0f0e4fbbbf9f8c0f8c96ae3f87d062aa529d33"
        "0x6954c57Ec08bDAdFBF51D4c6fc9CFe46B03EebF6"
    ∷ key "789ea19f57ad8b90f7291bc360fc770446bf2d0aa251373be42377c8e21884b8"
        "0xb99b0D6841Cd154912C3260a3a7A962CeD7Ab066"
    ∷ key "8c50d16b236c3c1cfa67dc4cd018dbf99224be28c4bb22ff7758698b1d5437ce"
        "0xD593b063Abdc367DD822c7971A378f06bF6a5fE7"
    ∷ key "1dd2b30f07d5690a6e32e70b4f686e60b1e631cec643f97e50ab35abe3aff27e"
        "0x4EaE012D27dCec2fbeB1b8825256624d6bf0c0b8"
    ∷ key "f867ebec8c9dcfa7ea07eccfb5cecb568156054e70487e8190eb444e7f686876"
        "0xb2665b351003a873CCEDDF8cA698a8017544199c"
    ∷ key "7809993263435baf956f475181363f2c24d1e5563885fbea5fb64a2301af93d6"
        "0x74Df59A5350152Fc1C513fd81eFC44E1DF723649"
    ∷ key "cf46d6c4e8787df76bc561f60e80b68284bfe68330e8c693ad873ddff5ee925f"
        "0x54EC04e96c70b55838A57d684575916F0Fe975f2"
    ∷ key "c930a082cefd6178169def2de4d61e18c3e75370a69148f93205381af862b82d"
        "0xad71aa86b1b84440b2193E3875c351A3A041CB31"
    ∷ key "428839485eae5c7992100f5f914f72fcce8ae7309afab13bacc195abce5702e5"
        "0xD54ff9889CcA783d10108B8b410e1C975053f39F"
    ∷ key "eeab41b6e8d7d7bf260212034ee48aa3f2b7f952e5f7f73d5f5fdd370ef6d2c8"
        "0x5580205e33f4bdA61674A1740F260A202F9D8986"
    ∷ key "8146f6ac13a87c096b891a761486b268af6dfaab13f54f7e9daf0093e4cc6f6c"
        "0xBF765D961fFb8dA6Bad5449AE8c8f3357b820105"
    ∷ key "9316c6bf357c19da91524d57ccbf65aca68e848255a3920756afc62a4071347e"
        "0x45031a0E7AD6fC2207c8D9595c0001659e261691"
    ∷ key "e31d794708c513ab255bbb79c5041a7cc5d7ac983dbea39368e4e35e556e2766"
        "0x500A628c1100127Fdb18d358c09E0Fe176B68e62"
    ∷ key "9d676edb5f0c960d4848276dfc3598e786e636626c702611ed8ad3c99c21d0a0"
        "0x4c9F04Cb129e39836e957CDEA9F731cB637b4C80"
    ∷ key "55aa25f99c716f41206bc766f6c8ab8f6e26a7271bb3814a2ea464c42d115333"
        "0x2Bf5aBF3425C198456490c9F9Bb467D9a913A3F9"
    ∷ key "9ab9ba57bc572fea6cc8c75af01706eccc2026443dc97e26b08a99d2fa49f1cd"
        "0xe10D95bCF6a85054ebec4072FDFB14c5de60aA99"
    ∷ key "7617ee85fb87cbd26dd22c14af79c31fb7633c153060a49fadbd722832536893"
        "0x8927b21cB5519Dc997ed2efcD514b3c982038b60"
    ∷ key "fd0146b061f5621976d5c23f3b6b765efb112d3ddf2d19c0831cea2df7fcdef3"
        "0x7F33A9d5ca937DeF4Cd2e444A36b3033245CCC6a"
    ∷ key "44f3e1f4f9c855954ffaf463da6bfc6ae64d01a98885d65e69a8ca4009c16701"
        "0x3D832D98f3ed58d7925CDd16C85e1254e8717cF7"
    ∷ key "4fa2e0dda1c525df92968f20f445f8ca1e0577f29025d52be57ff567b3f06082"
        "0xDf514Bf2b50a8450D4cA309bB575af5A0babFc88"
    ∷ key "23665fad20d9fefde4b78e5cecad01b9aa16f687d01b13789f5cf04bd050d3b4"
        "0x6F83Fe23B48924253eA61643d21b3d346d8f7122"
    ∷ key "74957e994f4f6d2de347ae720f5eb2b195ce55df6950ad49c4f0d148192ed96d"
        "0x175CBBa96Bde76Fe93cA84de81e8a0dE3b6a189D"
    ∷ []
