-- ===== src/Keys/Data/Sigs14.antt =====
-- keys/data/eth_sigs.go, lines 1928 to 2075.
use eth_proxy.Prelude.{List, [], ◌∷◌}
use eth_proxy.Keys.Record.{SignatureRecord, sig}

abbrev pub sigs_14 : List SignatureRecord
sigs_14 =
    sig "0xb499085a12c1E795CA6bf50Ff7dc7911d4D31459"
      "63d06a4d4d31b7397dca25177415d4473eaa7c7b6a73c91e167c47ceb263aa8f144fc88137fdd50c4a99ea61501d4a5032ee2ef3eb5046f69f1952d79549e84e00"
    ∷ sig "0x3804F1e64A4A4005F4cDaa11174c70639A15Aac5"
        "9c997c0527b516068a3aeaf6bbf35161a25dbea9f9f2578f2dc7701191e674643995542df12a0018712f2cf61f230dba03255c7a4e6386b90a1d5b87c0436a6e01"
    ∷ sig "0x184F72d75Cc60f8A9862b83273ca36D2D0FB3dA4"
        "07a871f1fe6dc7504d4a875e0471ef05b7db8866acb53744856b823cb51935d63f01f4013e7e688debd4b7f0be008341556cb045ea120756567da2405deef85400"
    ∷ sig "0x88A592B1e9EF58079F7B728499165CC4bCfa5F5b"
        "6b8e076651ebfbb5c0464ceee2ad34662f8c4f15216639fd120c9e76444463f10de1dc6ead16a083bb5296a44667757160211ef3c0fdbf7c2c47333a52267f8a00"
    ∷ sig "0x36842e290f8D2018CE1cf73C7C0a204AC1864ff6"
        "2087ef3b675f5d1f36dc9797582eaa7ba9fc1be18af1fbec3217bfe7c01e67ca00e25f118fb55b952258320791e7d8ac53d8b1a8ba9b9638177256f13bcf457401"
    ∷ sig "0x0A0dEAE66195F2AeEBDe159D7557f66f3F238a5C"
        "20357ea81f477d988fbe9d2ee10aae95e6ebf88d6b3c64e9f57ac9d2be5857835481dbb48dd8756fe618d177dcbfbc78f63cd6cf16e55ec20e02f70e983de7ac00"
    ∷ sig "0xF792DEF56C23535977678edc33593679725e22bC"
        "39584c304926a78309128971ca7455f19fba9529fa989d55309bcd10b0016c2b442af7ebe0939ab91e2aca73e103c0d0745cc784b4c2eda7a7440bdd819c10f201"
    ∷ sig "0xe4d02702B5fcF9C93d77b47db51D6a7B07FBC261"
        "3e8407f0d794ae5bfef2c8fa18a4bf8076e0290a53bc65de13aecb12b85fb11314e334b89356855fc90507cad87051fb9abd6c71f3b195d71acdecf1c4bb0b1a01"
    ∷ sig "0x69583c2858c223Ca8f8832d77E54755f0643a4c0"
        "a63b6c4bfa56f54cb03164e5f1e02140121cd9d4d74b6a90cd370fdde0f77d7621fd696d5a7cc2f2895162e20637e2d2a36401820a687cb77bb7cac8f393291f01"
    ∷ sig "0x9Cce31E30859eaad72c03A8Af50fF65AF7FAd3E0"
        "abb6fb73c05376ba3433e131919c85dd47ae0d363312813040301e45d8d5fc716267e033c047ce3cc526c8848c660af62c2bc7660e33b9cdef45f9821a9aaac800"
    ∷ sig "0x164279cE84121Db2530Ef9f846ab629F33A5fe6b"
        "1ac278a5e80a11ec91a8ad0f4f50ec7a72f6a6ddef73158e98b7ea0f02ae9c676539a503247490a21908ed6cd409c6bc1443c79696c9775529c0645d45cc4f5301"
    ∷ sig "0xfb8CeDe761AC87Fe6494705A8525f6176749A032"
        "bbf10d41611508de9b6f5999c4e7df281f06634c7f4af5622375e4eddaf331e5054409fe5e37603522efabb9a64ab7d4a5ebe3f0e053c86dc9dbf77e21bb78ed00"
    ∷ sig "0x695174Eb403D14450b0914b991909dD450388B36"
        "3056709bf931a101aede5c237a961a1cab90256df984d25941bad434143333984888bd33de2b21bc191072dc3d6737a03a5b2fe06a56d35702fcbd2e651c2b9600"
    ∷ sig "0x52e948eddEaf160048d0b8c131e4ea75baCCAE56"
        "f5fc1b9bd1e4c4316ed8e23b01a94b02f90db9206fff9fd051b04db3f2a5404c4b68bb4056ca45feeccb7d61c4988cb7072b6ef83a8d375eeae532446e3151bd01"
    ∷ sig "0xE0842b64514110500124e624aafd05762C572862"
        "4e734309feb6640aa623cce48b27db77a8bc239a25d5cc289538f7c21b92c89f1a1953fc0546c3bd4e30e9fe43469d3f25aa7e5104b51e365f1c29b489df8fcd01"
    ∷ sig "0x8557E1028772b33b2281d063B0269446533883D3"
        "422445c5b6fd7a045367c9c769434391d813627981d8a31289f9212ab4fe457f6d007c61b10ea3e89c977161b4cb5658d8ba198d16483088d9a674b48155816101"
    ∷ sig "0x95fB23AA50D952FA4ADFceE9E216211DF78530B8"
        "274bc43f28f419fad7542a6bad4f401269c0a812acc4d1a7a561483eb2c9bdce400a8fef5235c63c72a8181a7edf5ad4852bb295d4a1bc2197671797a4aba8e601"
    ∷ sig "0x43e5658B3E27EA98A68d8Ec277df75dC06484807"
        "12bc602c9475da5cadd391fc0e3dda8182d75e942c6ef51c1b98d5bc74382091619dfb95f0ccccb671836b0080a184f86198152ae1da9cdc05b2a0888363b8cd01"
    ∷ sig "0x50e57910C4633C4a6D67DB215f07A2c2440aD834"
        "27d9fdbbfe3d16e5adc56669d257f2997846a581cd7c78e8f39cc6b361c1cc5e24062792b1da7d793ea21a69f244928c458a83d26513efb8cc56bfbe95c0424600"
    ∷ sig "0xFb8c854ae2705bAcb9BD677a65448E1F33562756"
        "8601c041253cb780fa56680d0f14235e1994b55b39fd8edfb4dfc568976ddeb353754bd1de8f2f724ba2127f54c4808048ea43ab1a7b9c3e2d094e053434935c01"
    ∷ sig "0x37f5da951365049231c1A031378fa797Dbf05D27"
        "8abe5c660bad7f22ebac44cc224c347acfa3bfc3aaac8b059ee8f18e0ab85347365cfc9d3033be0040dba2ae99feddeeb4655538abe828aa04c5aa99fd325e7501"
    ∷ sig "0x5B483370385Ebe63d9F9FFC95add546B18b8E525"
        "c9dfc81b18f6dda1eba194b418bb754fad95b6c8f76174c8e916f78602b1e3db4b58cffdf6f4389b037f53480bf4407703a077902bd67196bc68e7dea9dae99f00"
    ∷ sig "0xb520e53C36246EB69c6FeF17730a365Bb6cA1B8d"
        "2f648b6909ad5566e2686e183cf00bebf6dbd23d37f4bfc260c1fe21a4a2fdd24c99128a43433e0c426a8e98c56bb10910d1bc965d972350bf467c3b88ed991700"
    ∷ sig "0x02205a5d0B2F21D4aC5142B79A5dC35f7d8Cee29"
        "fcf3f5262108f3f52180b0d3014775d97af2bc7401018fcef39022cf11b5d6267ae2acfacb0c3836208828bcbf38e41407d6138942df12604c45957230c0b0ed00"
    ∷ sig "0x5492335CA005004FADcea1354B3Abe18BDE8536A"
        "1ac2c0ab7a36fa804b5dddd54d29b0d7b7db45bb2ce17df668be1251fbff5be31df83bef66768501dc217fb864b99da78fce8ab07cb61df65f84b24d6152fe6800"
    ∷ sig "0x9C3204A5c74a83c927183DAfdf67487E9B042A71"
        "88ecf333e0dcf6e7a41882af6c9002ff319e313000efc7b53f3d53e08c42ffc9549abf37138a4cf8ffe67df80da455ecec599bdc471be4f0c6d20420304bbe8101"
    ∷ sig "0x793514d21c1006c675118b2BCEa89ea5400D5b04"
        "9322e9f386fa7f8bfe018d13534a6cb80b02e58f08eddff8aa6296067000cd80534e2d99047aecef990ccec65d1da5d41c51cf4b88178986ead25e40d5ee539e01"
    ∷ sig "0x71Edf7e6Ae9fEBb33f9A7B4668CFed850137Ba74"
        "cd4b45775c59686dfa1321cb9b7401f28d8baadaef8a55a9405866234296f78b1d3e22f00b90f37ab96de649e8cf7d9df708f61589f5c97915b2afe18885f4ef01"
    ∷ sig "0xDBb65dDa794509Dd648641F60d4a36efE138272A"
        "f3ec3aaf11fdaf02b16835f354712824c5b45b21a935b320af3cb328e31ca2147909cd6ea7a09e92fd8f6594de60d899e0d0d02cd08ba9391d9c47e392180bd700"
    ∷ sig "0x86B24eD618Cf6869b12c531288C174210075ddc5"
        "ae5261c59b8acc4c7aefef201edc7c066d8e5ab8b4f02731ac004e21508781703fcbf67481588fd79bf9cc421909326d2ee9520d20fc1bfa0b02613b960ad83701"
    ∷ sig "0xeC62A1185544589Ed741f0c715F5A2f5014864e1"
        "83528a363d6ffbcf3e1b6b5237d935c14c30b984f3d1b2e5dc7ecd9304fc2d010fb5fd205d3741d5cc713fb1d0f1a15e5cd0b3053d35456b345b221a06deb43200"
    ∷ sig "0x38D4b9796A37f2f0965e555dEA81907a33654F11"
        "fe445d30345b747d965ecdc66dc68dcce7ecdd237efa8310c520dc3cc8d5d6936e7eef2aaebf5e42b74449727b0a00dbdb77c2ce3df8e7615341518409adf5dd01"
    ∷ sig "0x8280ee88D4Ddeeb99d57976271e8Ccd92fF121DD"
        "b05de7907d65856d4f822244089f0c23d0a8da3774b8067567a34ace15bf8f940d29559119f8083d2fbd3306aeeb455bd3b95b5fb0b5bee6e78f349b0fb0deeb00"
    ∷ sig "0xcAd62e99Cb6190Cf2EA702De1E8c077E8858cC3b"
        "c4c176ac3647e4aeff64961ef1f2e0598d942c6451ffcbc6123676ae7b67bf68405fb05a762d4f0efce73fb9e454fc7cca174941fd06be0498ec52a5d99f98d700"
    ∷ sig "0xA2A5a1afd08021526988Cd04F831A3f490923E52"
        "c9b7166ebcf93be3bdb3fd4b60769f873ec5c8e9afa31e7a1e6d0b53bf470f2c46074c000dd044c0f87d7ddd48199d3fe6d923f8f7c8317a312080ce53a5f26600"
    ∷ sig "0xf67cC1a1078234BC71A08cF1c90e75f56224defb"
        "3ea65bd7d75a73702219d9d91000353ba30709aeaabdcc82a7af3a073e06afd4659b63d656475e175733fa17c9055eb5f43cda5a1d271e55bb986f63456bd96300"
    ∷ sig "0x924C4b9fb924ca327b5Baf5c79A4FAC7cfBE7d03"
        "b795ae5d19f90f241c5dca2b85144c5356d6225f968780324b45bd3980845dc52300cec20f0ae817a9e01c644d32cf532a7547648ecb30ab64662d1fd50effe301"
    ∷ []
