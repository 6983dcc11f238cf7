-- ===== src/Keys/Data/Sigs4.antt =====
-- keys/data/eth_sigs.go, lines 448 to 595.
use eth_proxy.Prelude.{List, [], ◌∷◌}
use eth_proxy.Keys.Record.{SignatureRecord, sig}

abbrev pub sigs_4 : List SignatureRecord
sigs_4 =
    sig "0xbE8e95353911E24A843Bf071Af7Ff4f9630962E6"
      "f5182aa6a61c6fcd7c9bd83aac2b04ccc432a4e53e29ac854df4e7cd64e1bf90295917aade919130b284d991fd1ddc179d6077e2b1effe9c99acd8e55dc487c000"
    ∷ sig "0xDB46bE5a5D22484a1e4E3513a45Ac9116CF0126C"
        "8dcadb3197f18f78afd5ea837caba1315e02f1a8534e28968c83d9764ebd1bdb6b7a87b07c870c31bf6b233bc2577ee2a09b8582682e3ed69f75004e1cacaa0f01"
    ∷ sig "0x2DCFf146635d6d02aA78691b22D28656633cf94F"
        "4b801fdf43016af00a954a92e2829bab45262133b5c029da82ea76c1b96e3a0b7d837dcf5f1dc6c70812e24d933300fbbefa651fb203d7d909a4fc568e6f68b700"
    ∷ sig "0xed6aF2c3D89a8bdf17310Aa04C3a3024123E340D"
        "e248073be0993f64852e45a0cc38f23b7483199032b2d4d47cf543f6ba6ee2fa6e38204076dcd1224b79da526f524be87a6c07bc0f3e0727a7b668a5a7ad2f8d01"
    ∷ sig "0x6B749dc302F12472733ee7047930838EDBFA3982"
        "ad4a7822fc30ba5329712b742fe81b5d7f8f795d33de298a033ed12bf72c05b05aa7032dbe0c10776f88a5344be466f4cc4d212aa66de5c39e7498b346ce5b9501"
    ∷ sig "0x81078e019c2601d99083CF59A3F44667634E0f56"
        "fcfad417b5f00e359ed8cf1d0b127e714a74cb840381cc34d6b29498373f219945a3cd5ab6adedd7546819c6c6500522e3698a83049d2f765be37caacf35e16a01"
    ∷ sig "0x5B401614e2e7E8Dd754616c11b0159809a4fB756"
        "3ec9340aacd07f692e7329f889f64bd1ac72f74c5f7d15f0e0a44e439921b1d41f5a8cb45836c1c867ea7317767f5397e2af499885dec90e63499c91db010f4301"
    ∷ sig "0xf58bcb96941C1F54148C63f63cB478744BC0C3D8"
        "6d296c96fc1b9edde6e5555b25100bebdc6ac8d5d81f5db2364c43418089ca972a3f9f350129df3355957d28801254d8b5dcaefaa163d4b607cfb70cc66f3c1500"
    ∷ sig "0xAF8e1EE4fdE95ba55a079edD77aaA3D76200B186"
        "f2854be4197b7977e5102faeeade3373daf5367128dc748fafaed6ccd8b420373a903f5ac6fc491c8e9c3673231c9603ac06325ff43aa59b69d30198029bdf3e00"
    ∷ sig "0xa290077bc9E9164f3b622a44d6ddAc7B06E50F8D"
        "d9ca3b3cb71cc30a537625b6565c05ee0f4346b14f8b8e6e35f9e460cf957cae1718b3a1ae9bd3125bbe648766637fe62a52ee94dbc801f13e5431048a99bb7200"
    ∷ sig "0x1629D7953927e9be5b9254fA1cC4Ff9DFb8e26EF"
        "f73f11062c7e7505e9b27d58d516bafb336c88afa2a2177b474e578999b6af1a7dcaf813c154c25a467369af48a6ed090520d120e746028c20bf14d8a8dde93f01"
    ∷ sig "0x2f0Bd0367D34Bbf0C5d674318B98089dF2e56aBF"
        "f982dfd55a3cb176c31b10e2b9300cd50483c19f02e1a753fb87ff1d6666bbe53ae41455eb4bd90434f0fb9a59f378a177976afb70a56d39dd7908649fe0146400"
    ∷ sig "0x12D9870915d64d356634e1fF465a5e9318952547"
        "26b6d0a83ea7fd403f8beae1ac6890cc6f612f88cc1a3cc1f68659abadddb59e4c710854944ee514e4b83008062a64c963b679d1d303f2babe784ef8f1c9f9d400"
    ∷ sig "0xeec4A65D532b70a8ac8F2772733C003D1EA0893b"
        "75c2dc049ff92d5502904f8441f7047be2aa2eaf2bb1f96023cbad84f5e7ef4b588e386008676750caea111cf3004a305f9b34af9243d9ad8e25129d6273b7ac01"
    ∷ sig "0x8656f27d169725727F0D6D95eC7cbe8B388b5deA"
        "aae5faad7ea88955f059acc6ebaed302efa4d2de63e6968f82f445d4d9b8c61c0a9fe3430b6b63353c1e6c9d8a49e1a86c06802e390592a9fcaf0132e46be70e00"
    ∷ sig "0x301519E94f97951023Bb73A8E0afbB8B1E9445b8"
        "5e1eca1e4716bbce1e76451e1703511118c733f91e09a891099a9ab43d5ee18c0bc8aaf46803ebc7b122fd12717d5f428bb78d47982f8db15db810d7135c09f001"
    ∷ sig "0x6A5A386e2129D2850c27F64a51f9364Be1eb67ed"
        "76001f506ce7da9f51e040515928a738c4dda32410dd1f1fb2f0efd68e2155b05e2a594af73ddc7515d978e038360bfe93c5ff38e065b82134f42ca886d0be3e01"
    ∷ sig "0x08F3093F648309Aba6b51F3c2c4eAcaD79baf3EE"
        "1243129c5597de31cbca9f23ed266cdad27064300f474e793631099bff132c7c310a0223bc2dc359b316efcd2048afe223665535525fc9e591159e42f73d8e2400"
    ∷ sig "0x22f582CC9C285ba14fD765dAc0627AE3082BdddF"
        "f6b761c2f4be0ac461aa13295b19dad774cd9ab2edda80c42ff0ec23601cb599015b0f4c4e5c3c9f78a6376db7bfa526140664b917c9b17d535f2b5da249360000"
    ∷ sig "0x67b2858d757e74d9e39bd705e16c59F83b194eAa"
        "b281d38c647e4d421bb18f564b7365b6c0925909303529da3dbef4bef25e4aee0bb7d99ab94e2f988402a8f314d19f2f69cbbb455e96408be26e190e5ac0a84801"
    ∷ sig "0xd11E2af131a61B0e7DA26436Ff0a3918aC108839"
        "d90bdf97d65de066f6a1d47135bc716e350c20d9434003e2d1fe5ea673c78f7b34edfcbd101c5528d7c56774d2d1c514d6da43d9101d1c8fa86070fb4424977800"
    ∷ sig "0xFB2db4BcaAaeA682B3a8C3082584203be9EB8550"
        "04be42fc09907b0802e1b32683db3d9306ac3abeffe8a96b6381eb142bbf95d1653157d452c8df30f251aa885cc21603635409261ab91ef8306c15d2cfdacbcd00"
    ∷ sig "0x6931633a8b4300bb94fAe344Abf22c218A150FC5"
        "dc1c681cc9db730673c46ffa195aa24e9255660130e68f8e75a5884cfb749e025540ab915c7e0d8524202310d1c06ea6ffbc5dfba0338c5cb917e3ea4ade775f00"
    ∷ sig "0x51E58eBe3218672bbDae45f61a38C4A43407C9e8"
        "79ba06f5a396eb9361b9f1d98acef74b0dcff696b980b9c4ff931624ac636e8952c922fcc688511a8d6116b09d11a185e81b7ae428e3daa69c1a842088f8016e00"
    ∷ sig "0xa9210980E4fb402601A01E5D62891483339085fe"
        "3d855de98535cff580a26b1a1fb84f9aa9d3aa414988a4132734f63832ebb9f302e3485d3e25f4abd2766518181c90642e80ff765656e26f4980d1379c3ae52301"
    ∷ sig "0xE61f967Ed9A82bCd13F74F1Bb4C59B89c6BdF24b"
        "63229e08f07e2bde26362d656658018b254a2a7d8772b0e69d2594d3b711fe167c9aa323ac5761936e8940bdac2fa640a6b8209a6eea6ec6cb347b0d8e996f9b01"
    ∷ sig "0x91206D4290Cd2F3114dD798bb7fC2F43B19eeA51"
        "a6184a608df1b26d6721965bdd13741439d94bf3b7d4e2d766eef502481aa87c1d83805da06fb650fcd8428f33c498933404b06d67eca369d5972dc944721ffa01"
    ∷ sig "0xbCb10ECf41fA7DDC566c18FCbA87ABe237CaCc03"
        "78442157aedb8c1669cb7112dfe7a6c23f8e30ca83c0208c3f4bacf43cec3091629303d5ae54bad326e6f0df1ae6967d5035122c43873fb6a2d54ea9448a363501"
    ∷ sig "0xdbf9F258D73F875FcA86946eF290D6679758751B"
        "21260b6e5376ba8864035f30f60ad2d8fe2d040068603701d71115a7c6e2422125379a4d01ec912e291cdf537d065f743dbf9dcd2e4030e0fbce57e3879742ce01"
    ∷ sig "0x399d7a161F270FB39838fcb312E70C13451C8127"
        "49c61a7d4790cbc56c1507cede54da371eeb5a14f53f278acfda0a30b7f4b06320b4523e9b08b280ef97aa6a9ed85e8cadb44f1466891b486341b600a307609201"
    ∷ sig "0xF7E2128d3d4e58cAC86C5aEd1F0894fD2D482213"
        "0015b528d92bf24fb1ebf71de1cc8617e7c9739503b1827d3b12cfd538ce1bcf67c99ae9766d42f16ab97749a9d27c0953fefcceb9e47a2d291df6c06ee67ddc00"
    ∷ sig "0xb3B2800141Fd010B3a4e17C6b3243d625F63ec9F"
        "0cc57e1f4afdc235867971717b07cbe5008030f63619b18e71acc1dc27da3dd26e22aad847a5f7cb1b13563f201b0937c07d3a2c7e4b2a2a016050fd8927bd5601"
    ∷ sig "0xdD1c66CD35f5E74F90a9e811FAe4FE36522fC7F4"
        "065cc4eb956486ebd0cf7abba0b3bf6b784afe8f215191b6a7e758a40ef5197a51608d613e2003f2f1cc0148d6db9ad6e8924bb3cdf6d77195bc92a2bb91712201"
    ∷ sig "0x8B62916892AcA7500b690b5FF82A8D94B1C18ee8"
        "fa07fa99f22ffc2f338101de5635806ca7ae55326226fbd2ad4df33a2527e9e03d55a2a03c6de0be1571e8811b1fdde3bb66ef4a80c9bdbc677eaaf5238cf32701"
    ∷ sig "0x6C0F113b55eF600D53752FB311e018b01ffdd878"
        "3d59c5d8263e255f0ec830af9a7723f9a0071fa24314924c702b129f3a348e6d3ce1ee447e480c9fddc49ca1d6e5f6e8ad3da592758feac69cc4b3b4e5968bc700"
    ∷ sig "0x45dEA726E2A0684b2272a53b1D89610BD4C8a046"
        "7f13291159d8721112ea06c4a658274ad8ce81fc2d2a01ad7b244f0715168e402f4482123c45ff4cc1faefc910cff569ac42c727decfa1c9a71af97fc6604a5a01"
    ∷ sig "0xfc5fbDa2d258d0641E1747491c108F32c9b8cDf4"
        "43de5d44204c7d6646b325d0f9d038b204c3a0317c09a22549ffca894cdc1dda49083b08b7356318aa873f3bab2e2866504cf3be804709319b7e1c1a5020713801"
    ∷ []
