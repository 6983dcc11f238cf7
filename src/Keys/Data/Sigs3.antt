-- ===== src/Keys/Data/Sigs3.antt =====
-- keys/data/eth_sigs.go, lines 300 to 447.
use eth_proxy.Prelude.{List, [], ◌∷◌}
use eth_proxy.Keys.Record.{SignatureRecord, sig}

abbrev pub sigs_3 : List SignatureRecord
sigs_3 =
    sig "0x2b01E069eDd46D43E1486e8838e47e2605f4B2B1"
      "22df36b2289c2bfa2b516fa2c66dd494ffea5d98fa31a06922990c3a2ac63f2a16e9e608265c3943200d389aff18fda0bc91cfac8403f23caa0c18f545ef004601"
    ∷ sig "0x6d6638F3831becF3cA9c72392C8716ADe1890809"
        "cc0344edd3798e18f7de4f52ce88837224ad5f11b065f7dd30527395d3f8c4ac684bc5419ef75cab5f4c5dfc16be8a44d9888fb0a4906afd0a13b172daf7a04a00"
    ∷ sig "0x8A4F7c94c17E9843046B68a2be1719402DE55A1A"
        "5687b7377d997bf77db476e69c758255301ed22ac44dcfc5972ae79e1ba279e6047e18fa73cdf0d31d0ff821dc1c57885c8df2d9b87bb7de45f44865e6abd66e00"
    ∷ sig "0x2914Ab005EBe3d1187D63B557Dcb5d49Fc067De8"
        "9a91e56dce8776936c943a85ce394d6b70b3cd6fe5c0c9da2d7866990870619120089798ffa9a4e47812edb71ce501d49dd91c97e9d1df21f6e2762cd7f5c35600"
    ∷ sig "0x8D73e1B1fB90043b87c15A7F154D88908278653a"
        "81908cf6c6e83946986719354a597a4b590635866a2cbc459b962c880da395500bf52fec329802f67c954dd9acf3a40d283b2e33ef133f3b3f414f11ae30822600"
    ∷ sig "0xFf2fCea4578803dF975304dc63EE5AD1B92Fa8b7"
        "b55fe26b3363c19de71a2a9f18fbb8fdbfec224d22c8bbeda26ee16222a7baa33a6d59d80593632f57c270681e2d0b4423d6d80b4a59c9af09fdcbcb5b96c09d01"
    ∷ sig "0xB2221Ae3455A1d7c5CBcFc38151DDc85066E5C03"
        "57bd78186379589408eb2f7a8ebece20d4211a47acc7e9b87d9f386d3fc8a9187e9f75a459f153206fb03af3b1c8f841cbcbf80e492ede553b6726caa8f3fe6201"
    ∷ sig "0xDB4F14ACc639b3c91CCCa04A3a0BdD5A3FBaBcfF"
        "866fac2cc53f0b0b661b013654bf3e69e8134280fdf276c9bd2f3f6a1b8517a8627cec3de280aa6d0a54e33600e26bf8341d28ea68999e4696d8a4091906411e01"
    ∷ sig "0xE6E0c8B7723C40a987aE0B440A3a0d9072Ac0fcb"
        "062418606281aedabfd1775d2b97195b72f20b2def001942ea0cfb840ca98d1d3502670be55490c6d243e1b0c46710e544d8791035024593aabe306b6906ea1900"
    ∷ sig "0x4A446807f0e516411372758eA530041931Ea9691"
        "4f3c7cd75e44e267fbcedb5b9dd2fefbc5b1f7885d6668ebce2d2eb4431dffb305739d6af1593fcb418591dce84d1bfd5f351e4a08543ee09d7cfaa866e12b9000"
    ∷ sig "0x9672A4A0AbEE6593d34c98e4a6405d4b9b989330"
        "a858b58ee8ab758bba3d7f05053e9622d81bd97bdc559da0c8efcf7b774cbab84989e83c3879b70f7dcd8c6c310088d7a8347cf0535358273e86c58b17d0095c00"
    ∷ sig "0x633cA8f531081FA7d8748831676A1877D78B23f6"
        "e2526e4a048f6174992d424f469d1633c48c3a7d7d670a1473691717b7f98f727489844ff9c6a997b179952f0ab183b2917d14e6e89713c129bc00d65670330200"
    ∷ sig "0x956612a0d03f10b053FAec5060eBfDc1D79B0610"
        "9b3e473b96a3d20259634bd9d65a7ede15c0efe33d1e742a001e1d30f0531d306406f4e063ab005e88bf23ebe7baa4a1ed62746eef1d8608460666f2014b07d101"
    ∷ sig "0x27983C29Bf63170DE71C49BaBce36ef270E0eF14"
        "88d36339c6eb2c85f7d4d1c5ebd42817e3ef62097e96cd70591fd4d6f65e20346cfbe503591d876a75f6900c56c0775c40bd75973526d1cbdc9a3b68b656cc2800"
    ∷ sig "0xE68FE690288A6E99022EA3173d0CB82C4dCF6C0a"
        "ba537ffcb02403f372489e979922e0cadf78d1dcfad6b9442d68236c1210aba90e0caedf85ca7185031e41af2e345d39952be7b165f27964839f22995fc314a500"
    ∷ sig "0x85Cf70224eCa3F901aeB6390cd2532fA030fdD5B"
        "d57318abb28af00e3543e9fe721256ea85939073ba270463ae435da19f1a001e12730a5526093873100585ccc2ddb51384b6dd55ec46062ff1db7554fc87a61f00"
    ∷ sig "0x642C056E778337c1C0a3a89f5deF763757cB7e22"
        "26eb0ac4f8fc8f77b9ad2397caf31047239f4d986bdb7d2ac2abcfaf992a5ac757b24632de6368c60feb0d6e3cd1529f442167090d18f5b151790be2043504be00"
    ∷ sig "0x60d02725025D9A626C9f23D76AC3835C646eE13F"
        "41573d48506cf9a35471de8fafb479afaaeb95a2a289c7ddc42b9770f851e8c91a6c50d7a0fa3b0a7667ae8cdb85001e0104ec3c1b00c01885130acb859d73a101"
    ∷ sig "0x8C3385071D8447Bb5db1b939785f235DCFb7e58A"
        "60340b768957acb3f386307edcb51e5b1bd0f754cefcddbde608f4649e22589a596e301f76af931b65cf8eb45104cab74514d6955b7183ab46a8154d3006a21a00"
    ∷ sig "0xcCA5C7a06e073eAa72301e91bDCA9B3d6d500c39"
        "a8385cf2e028b54338d89a6a08d3a2a29c5091f2fe546c40225af90ef43802fd08fbd79a80d6647f57adac8e6caf530273af9555aaace53ea67c4ad5df916bf300"
    ∷ sig "0x94d5f600A64009E95a83D4fF6c7cdBf091643730"
        "d4b5776d5d2932c01b6aa86f05ab8270b3084c268d0be3cf538f900576cc9b2917815f5a171c7216c932c2ecf75c6769f2190922afce9c748eb50ab182ce84ae00"
    ∷ sig "0x5b5c2D8A7715A8A98F798B3e7d4A6b11ac270274"
        "143eab295aaecfadb3fa95c60de28f3cf52d3168262179a34bcb9f5553a1155913f646ea03fbdebc5033341952de2f19d0c168213b302ba6ce875d6c2c001be300"
    ∷ sig "0xe32c64eA1b3f193e01564E7492b1C76BFa7458F4"
        "64a2f63c8ad4152e896e9f9b75819b4b70bd3cefdbebb67605bd673e66820e4d1402072f3465a3f881358c919467094a7a62892c6011fc84b8a51f3c85daafea01"
    ∷ sig "0x8a60B3C6466af68132A289df4AC31184953D6EC4"
        "877e3a0e93f0091410ffe777ce62fefecbcb4d5052c891eb174a2d558c0fa56b75337f5f08701ebfb96383054702926441d77acd08bf2f62eaea5c400394e37601"
    ∷ sig "0x4Cd4BB58E119e17B39395E8C425Be6f1266E6d85"
        "9ed4f2ef7b00f88fd518062d1a659ea49134949face3b3847a3557d0954fe7d53888fa575c25fcd15a685d1de2d7b4485bf679b0c726bb633f1bef7fa4499acc01"
    ∷ sig "0xB447D6a60F88dc89e03C5B5728fFfb1CF07D8C70"
        "c3bf9ca5c156cb50141aa32b0c74877967d3228b0cd6e99bcf9ece0e619ed1074acd0bd14197b3c5d1b3b12474cae9082a152525ce7a6944509e7d66e4acf8a301"
    ∷ sig "0x53cB88dd3fD233F9a9e733BD90c64B4CBC0D38d6"
        "2289881d403ad8ea9cad80d83d1f39636cccd370ca177e57e97c36da52f8d672070f27bd6622f01438c2a6d5ff1a94403628eb44b7385e87a3082b78ce61e19900"
    ∷ sig "0x53dD15963Ce052e2C6A99108d8eAB5986C20E887"
        "e8b02d873c79a9f09d7130714b9d5a3168066ce4d7b56b8b551dde652b3a3c8d62bff4b9a9dc4f98e17e8da16fc45ec044e6f67d09b5eabe010b6f2308a3105c01"
    ∷ sig "0x7A9D264b9bDd7DFCB8FCf7F0E9C0a18fDf860bBb"
        "5ffa469f1992532a242a671a6fefb601544f5a7ac8978f647840a3fb99ef9d7b5e4179c4fc9f90221f7e1587739891716f944ae4afa9226f99465d73ae2002ef00"
    ∷ sig "0x59286730CAd76D088dc73D69cDE3AfD204a93CB6"
        "12388694bb9d4d29e0b6d419f66e7a2f3a556295b7a825d19e5e2f7cf528ab5a68a450bad98302f80fe5307c5218d2c822851ccb353e028b2d9dd120597018b401"
    ∷ sig "0xeB0B4616C89c2F60a2b6cEb9C0E11844CD792b88"
        "02f4b81007b94831e572245eae9b6eaaba670d09aa83cb4490f8276df5c0a77d673e7521089230d6a393696decaceb6b1d389b10ea5037ef56b55207d75c9bd400"
    ∷ sig "0x9f0aB2B9d4554Bf877f886FD8fB2f014f38F644f"
        "c40403260509e9f4466126837798caf8440ed6d0cf2dc01e3ab9b5a67f383d4f3e923ec20e004896f5d4dcae86c3c8887c6e2f08075b119978365ee112869f5f00"
    ∷ sig "0x51F42354D6060F0648BAE57a45502095f24F270c"
        "67c5e51dd7172e76a50c109ec20533961cc65cf90f99d715e76b741fefd70ee8593da9a1d5c102549735feaf460fdb516dfea60b4e9ba8ab6f2b63223121583100"
    ∷ sig "0xA4C2c337D9baE855dB3341f03a07AEBfc5E6528A"
        "c83200e0774cf11034d3aee62bf79d17b7198f7d53b014bb2d57009e8624868111972bb9c0882061da508a2ab8e6e2ef8b98623708d3574a96522b611aff032901"
    ∷ sig "0x44Ee46a105d3d5FB0b15C918613B8e2252a1Ce83"
        "72c6d77eeba3472c376468ad5e3866a0cbb900cf4cc67a0453e1b1a74ea9e8ce59fca54e488254a2762d64d67ff9ffa580117728fcb31e06dd09f1f2cf6da67600"
    ∷ sig "0xC2F1a40b3b04566b36AF6d8fDcdc5723AE1fc922"
        "86356fc42b524c96273dfdc7778607cff2703300d844625dcf34fc322c22ec2a258b3beb116c0af6cf5c6c13b3da170234c9c408b81473fea6be043385114f4500"
    ∷ sig "0x35ef1BCFbB3A042E9C2271B9682D6320A496ef1F"
        "257196ed321b619ef7c8b8bc7d54e5d8aaa90694237a46970d42b9b57f95fc5f7a77b403dc94025c74c1ad1a23773e10e42140a4704f1cd37adf181a3918109700"
    ∷ []
