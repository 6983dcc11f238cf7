-- ===== src/Keys/Data/Sigs10.antt =====
-- keys/data/eth_sigs.go, lines 1336 to 1483.
use eth_proxy.Prelude.{List, [], ◌∷◌}
use eth_proxy.Keys.Record.{SignatureRecord, sig}

abbrev pub sigs_10 : List SignatureRecord
sigs_10 =
    sig "0xa0A39311d0aDa26c763C7E39C48be2841169FeC6"
      "59e695225ee9b6c7cf9c2bd3d636e6150517243a97705b4138a1ce7b4d40514b2d9705dbe26dfb0315a07fc9a4fe017c9d6c21162622577fb3fb3cf28e718cec00"
    ∷ sig "0xcCF95b4ABaebd44eaE9119f1a5B969c054119f65"
        "4f5adfa171a5e4e1b27a3da5da87bf1b1c8e58ac2c969c700ae6cd7a4762e1a3757c2664e1b13230eb849c91eb26b856441e2843ef368af186ad70fff9c1a63500"
    ∷ sig "0xef204E7B3392984d9634DC3F979B77E515455E67"
        "e65e873c83c597d2d38232b6e99c42c974e36abae2a09e0c497496ae9fcc8ec44ce43b6c7e4d7ac41cd053d3a5e8b10446a6fbca10b28db874839d1c1f2d678701"
    ∷ sig "0xd4bA506dD4551f91C6ede0Fcb487418C0854a79f"
        "305f10ef97250740c64691733c183d206d4c400230e38df63b77eae5512ab3be34b01195f69225503f335850f1bc08ecdf237eebaa8e398c50ef8c22ce882af501"
    ∷ sig "0xcAC49b2fD05A6b9b84815bd1a1D29a63E17bEF68"
        "47e630695981022c019b2ff162aa8ea4b6596a717452a2dac67febe1e166c128461fabcdd6f6e9563e956ddb14aa780709380ac0c7f978136b2836c639dea1ee01"
    ∷ sig "0x5C58F20B52991875FAb03eA105AC670fdBd91E2A"
        "f25144e5ed7ab6cf6563bf9a4fcdb11aaaeade3f44469940925ac0a8b61452811ca3a18654a568f4298aa2a9dc4ae873dd6c8416cc4ea5d736c58f6f089c2c0201"
    ∷ sig "0x0a9bD23F607cf6dCd201430D29eDbbe25d64959e"
        "01f52cd89717cc977cdd79430046abfdc783d8993a3e8ce8a175734d4834a17406638fa470b4984fbefe456b76c696aeaee86caa9e01b2546eaf47453229bbf801"
    ∷ sig "0xe23A56E57de9f5515e81B95997aDDa64eC8D3b73"
        "bfe5d1a2079c500932cf171143a0dbb608a0ace537c3e32da8b15eb39e472467564f83fa97d3bb7a7612855b8e1eefc28f9c1fa627f781f674defa40e26f770401"
    ∷ sig "0xA96EE9869F63B48527748b51Dd754b928905E467"
        "6f3f9d45e83857535214cc235c3ba970854a19a6424bed77e545de402916d29f39cc0675046c117767a7b56af9c74c4636affa5d2140c60d7e24767b24fa93d000"
    ∷ sig "0x92687b121b4e738f74e46E2A9E652e18103C79A4"
        "b73a1d4bb0aea71a6033af3a5aff91a39ebf1394bac00e42581b67709630e9742723419c32bb0b897de04cea96d695468a7e7f2923e278ed27f216339898add500"
    ∷ sig "0x43f4AdbC85bb6523fa8A30489927D823e5382029"
        "1bfb59c8b56fef5b0e9b7944edb64f6abd85374ca913ba06a0ed9a6e5a75da5a465fe223130c6ba13c2cf3509ab74be238b9dfee2f47e74bad23e2f54073954600"
    ∷ sig "0xF7cDEED8B56B976fCE9F815bC267B0B170E6b028"
        "8188a5eea4e917a00cac2f7527a46544553b958b02283e8edeb008115ab6c1f803c91080e023aab606740f3e6510de719a249f953047085c81de49fb024f41d600"
    ∷ sig "0xA08843e01A071eD842Bbd080194E61da1b660c4f"
        "bdb0b97b96857b0e75f93538797e06fa49377b0785a637b256f41e5f204237d007083adb2210968e1a35b33310345d931727ae807359e87d0961036e6c770e6400"
    ∷ sig "0xe230134e284c59BD1f7B1b4f5b31Cff0c52F5e8D"
        "3a069427bb8778bb20e351e6c12c15a4cabbd077e034c80723417facc5d36dda3ac1529441db099aadf22a0fc02786588b5574a428d37f44de847a574894130600"
    ∷ sig "0x96e0ab7DCa5ee9a451Ed707757d49180317E1f65"
        "58e5d4e14842ffeb4de26990f15f208aa7619b2cda05ad8934880acf75103ac93d09bc77d3c6b69d552cd946bd6e4ecbf6f4b2f3f64ccc9756b61ae3b2ef2b2a01"
    ∷ sig "0x5478c5497E4B2fF884FC82ea0bc8687cBDa1A539"
        "00a86477e8832e4cf1c3e6026d0fb0b3cd3b51968edfa31897c7b6ba557091354b4b9efc40c179a063ea0ddd50ed005af14927d3f15fb05ffe6a40801c17654f00"
    ∷ sig "0xC79BFEce81c554c719A02E6D1150B7753af0B95D"
        "6791dc461b8be38031bad4794675f436f0770d1e204305123ac6e02545cf0e631dfa27851243c9104cdf993ccb5badd24960e8cde754587f2c60165adadc571201"
    ∷ sig "0xb8680F72c5d575141717495aA55AfCDda1A64E57"
        "ea678a72867ac42e8f37ee41f237387f8580d3de57031ef31624e31c8cc77d1c158655177938f19ccce04a436c9ff5ef0b05ad377e44b75f7ef6ca78c9b65f0600"
    ∷ sig "0xcE18a51FE77B201f7CA2Fcadc3404bF9645e9A5b"
        "03836395c6fb7435121012f912b34c2b77a464990e4e4a3abb2070b4f999715c3cab1ea197f58cd7496fce720276172c9b14150ca2f91d99759ca551dbe4d71701"
    ∷ sig "0x4b9C1CA41f84c620DaF23450Ab4f5b8925C93c7C"
        "faa229d1fdc426403f6c6fc5c259c4421161794877a60cd0b217fffbace3d9b30353391ec29ef7ce5bf6d34d177c141e154790d004d98bb5f00e03dc8cb3032500"
    ∷ sig "0x876d55f0E92c931e35d6Bde84D407E0D0FdfA53c"
        "9ed11ad52043145887ccd8a8350f0e1d9e07766938f769d9a646da66faaa9b1954aaf994eb285b0a2031f0ae5fd0f432d71b58b3452c434bbe29cd0e434717f700"
    ∷ sig "0x73B9D0DB0CD48dE4ef1917C24ad048735DC2b641"
        "742db2fdbb6d3505ac433b2d3d0fc4c9ded6d2c1ffdda42b99036c4a8c95a013294067e7ceac844071b0dc5ea5f282c8ecf127174767c864777a1032977eac3e00"
    ∷ sig "0x85907b3A350C57fA5023fA8B2b365005b27Ada70"
        "de5d59b18469df2138af9758dc3bbf3ce28a3dae6229005609fb147f8b359a3d3c5b19d82ea3bf37717844be02764fd037881183cd2a2eaa7ba7ba22ffbd9a4b00"
    ∷ sig "0xFE6457bf8530AdE37451ec83fD583A85D0FE5F1f"
        "eb8a4b68dc343d3d8d08b8b479240831102ee439e633abe295a5978c295fa45c150c4545fa1169e57f2e17a3d9d8bc942bb163171bc147c81421509897c49ef801"
    ∷ sig "0x8Ee738E3C969a103c528D10BB9eE253aAB9cd414"
        "315e94f07558d1305401ce1de7e0fdbfd3fec11a48cbc673f59c22afa7011d171eeb33cd7d1b503fef4b508225612465b56c3751d01401e4af7d09f83b421d9c00"
    ∷ sig "0x5Bd954C676710D9A990a7Ef48257db0758d5646B"
        "0117cc065d25b95247a49672268fdc17ede0a4a152f9151574f93c3654842e634fc7eb8a163417bf0ff32df0b905b639eecf35455bbd2356c46576efddc890a700"
    ∷ sig "0x0aCF9d8e8dF0608a24a4160b3E0609Cb6b859e70"
        "f0e53e71382305492463ee84c1e2748372376a6f39e35b0e8dca2985256678234dd98248f145d2a8e1d483c005ea2cb651969bec82e586eea539bd2d2d850d7e01"
    ∷ sig "0x100c511F17B9F50Cf5cA36CeBa79acF3E7085BF5"
        "a94780716cf3f8c0878fb34356e6faea4dfa6b86ea75b4df72149d840866458c5790085391b3526235164294ea0a2bf880bee7060e7a9d9620cfd35985fd531201"
    ∷ sig "0x9421Fbb83D7E55C1DDeA652c1735FC70D93B545C"
        "df09e598d7479b6576afc206d8b53361c697ce194950046659b0baeff913f827412924d9ad51114f2d7266084bcfc579ab84e6690b0d939fbe24425bc39c555701"
    ∷ sig "0xCA711cd959C7e57a74336e9DeA23dfC6860E8d15"
        "cb1f6207162d5590409f6069f04035bfb3c7c3b4594c0d299235608e79cdccb50adf8bdda8aba7fb86b058c230a0e7b9049d1fe482647c7bd81c8707e57dbf8d00"
    ∷ sig "0xb1B7D0d1eE3599b473ED7905d5495899bD304460"
        "720da436fb505c90d172c0e8fc95fe7bcf0f68e69150857f135115431cf464417bfe25627deb2842ed0881cae9c5ff67f360f6ba37c4504f266ba7cd657f5b6201"
    ∷ sig "0x183B878d08519cF3996eDA512cF9C27D13887198"
        "d51a9d77ac926987503a172d9922cda6918b3bcf9543d33639af06cbeb1b9b99361a92a23ba59533856179a47b2f758cf8e6d17a3c43ba8738b2e0a54309b81801"
    ∷ sig "0xCA75212398a57485A363d2F439e4Eb44E5104136"
        "bc81d4aabe9bd4e5a09597a1f218b6abd585900b7e9dbda81291f527e7eb23ab49dedab14ab3ca63feb0bfd5d1580a9911ff10a4f276bea0061fc398edda970d00"
    ∷ sig "0xF754816460BDE639CF2C92228F067AB7E213e7E2"
        "c7aa0a3fffd8236f0000b685cbcf923005d1488962125a3ec73bcf2af43a76be2cb7938555e3d1ca7fdbb6c31f25ba046ad01d6d1011f5c647fa6f305cda071201"
    ∷ sig "0x735fffa7042874B0a9306B56558d2EdaC91e8C4d"
        "370d94340cb05b0aed844a5b9d364cfacb6637055d1e945fe9d6f4f08e788de72d95027f07be98b396bafa66093b4a42b09debe393e0c12fb8d575ca2639fce700"
    ∷ sig "0xa9ab6F57b242B353f84caE74655aa5a6b393Afb4"
        "2ff3ad56fc31c7b278896528c0813b6cc0e6b82e800e5223363d3991518f375d1443c92ea39c898d260d188ed4027a470ed363899c8a29dfc88f3cfecf4542b601"
    ∷ sig "0xe7d9f871Da0d3207f95058029b7e43c3069735fb"
        "9decdd3478a8b8cf3e42bc37293c20176c619eeef67c7ca4eb42309048f009c42b3ffb0148a5a2024ff621b4faa72ba0ed5402af90175a9e3e3aa82e50e25e2701"
    ∷ []
