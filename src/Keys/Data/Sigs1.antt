-- ===== src/Keys/Data/Sigs1.antt =====
-- keys/data/eth_sigs.go, lines 4 to 151.
use eth_proxy.Prelude.{List, [], ◌∷◌}
use eth_proxy.Keys.Record.{SignatureRecord, sig}

abbrev pub sigs_1 : List SignatureRecord
sigs_1 =
    sig "0x3810E766FA0BA23Dd8Dc0c0AE3189a5d643Bf398"
      "87e8ee50cd3f912c7989ed38ef23586cc4fd724e0fb8058320861321e4979afb7b6bcf798281d37be60e345eb4cec73780fb55abacb3f0a9e0152a36ef5db8f101"
    ∷ sig "0x7E9308d9785823364b1a1EC8B1f01fed61B19c0b"
        "ccadb1b7acf7fcf2973c92e05aea509c65e7a115b430c0e5de61841abd3a41165ac35e586eeca4ed48003a947461a8ba2618dec5bd66feaba3232daf07df7f5e00"
    ∷ sig "0x716b40BE166035eec515dCa7D8c793baAc838B26"
        "eadd51904dc09ba7e3b5b94cda876f923ca4939f92c0f1e0d5323e5e95737b615ee147b524a1156278a2bff53d653bd7de0424e7849e5af267ecc8855baa8ca901"
    ∷ sig "0x0871df743Bc9513c571Ba4b373Eb741EFA01dC87"
        "8be3b6a4e381be32980d60cfc256a435c949c2165211c3aa03bf17b3569e8b05537e164d1e706d42bc02e91a485532c64fb8573e8d37ffaeec1780135fb67b3400"
    ∷ sig "0xFB3D8A0cB1D4838Ef9dbBBD2580f29aD64Ba521A"
        "ee9d941973fe2de796dd89f9205d679ed2bc8866c3873cee33aff00ab54d4c2d5dff1cb17c00fae3f73ef9e56384130f0c531a945018a9983dc3da4d9717fa0601"
    ∷ sig "0x9A5720aF43b13D89125e887bb601D2f2b3F05909"
        "263bee277fb6125b85e8112fea5d98a5b5601248bbddf870228e3b7f8eb3581a66afee0ada299866dd47f7646f250f1fd345cdc144e5be1d21ba7bcc2d67192d00"
    ∷ sig "0x6CDD14E4747ce7706747d179339a735A04FB91CD"
        "748dabe4191c2d9c39220ef769d28c347baf3f552f003c471f9b6e880c8246fe763a4d58a5cad9c3c9046f1ec9ee7acbb3e877c9ae9f84356bb05647d415ee1700"
    ∷ sig "0x5956B47BD8c27B6b295118B5Aff3580ce4aC0c73"
        "12dbfd59d036aadd7be0af955a11b0bf4a5177bd0228a58796ceec483942b629181a2b4cbd07bb2269590ffc1b4ec1086c0319bab25bead7dbf64fa1aa1e704600"
    ∷ sig "0xeA645256486D3f6a32c5DF832cc58Fe6f53312Cb"
        "9c0fe909832e170b39e671109f693e02116fe015f7c691f7277c9353589e54296da17782dc0fd709fa6940a855d2771ad546294072bdbebbcf769ab87520733800"
    ∷ sig "0x0C55bc828c50ad19EA91808370164479fE773005"
        "c2b848d071e530567a3fe4f5627e419647bb72569167ca95ac15fc707b50cb72777370152c6e1e649518664467928ce3e1014eaabc2da814e3516f918d06d25c01"
    ∷ sig "0xBBa0b8cE1c84786907c917db3a969262BD9eA7E2"
        "7c7d5804374e5aa6ea16f43fcdb8feee4339040281b452cdf31d4163373a59456508fa66d8862bed91a399d4aacd01fb2ea67f5ca56d5b468dc2ba428c4b163901"
    ∷ sig "0x782F0E93a41bC92016F0C1196D976D4e6AE4B7F2"
        "a9221dfdb77032b5f88867c24a9d6153119b3e7f943dc235af3506207fd69f252e7a15ad7ed0575aaaad30ecbcc0dc451798e208a9a9778896029db90f719e4200"
    ∷ sig "0xCC5e9132865950Dc49C47555FBF1900586FfaF5a"
        "da75c33eedd9709cab8c70b48a152c00b5ccaeaa5662335c6c0b47f1a8b71b0f379063e426c58bf9c1af3052adf3a307ace05f2a215cb1cf37180ae16f44efef00"
    ∷ sig "0x55e64d2460ed9bEBA47B34A772eB0BF549a34152"
        "5449e9f951ed024ed3470f2992ea79e44036d3d8463539d2c99cd190a5518e572e7a69bee36c26ca186a7c17cc3aa128af03ec9c4d3bf43871b7757f53015c0200"
    ∷ sig "0x215ae27E543803369D567Eaa498cDC15190F3B88"
        "322715e3041cc8d7da6e9ba56de6d067823b0d7ad9aa6b4932c0cf90a5a7175a773cf204fdab5c07c1afc974121e7a624adfc0e25f2163490048f30c3d6d541e01"
    ∷ sig "0xD54BCDB479a184756dea7DCaC521C827b6e4c656"
        "701e5209ada99bbadb8014c23eb7f790222616b468d39b3f463097332fe5c72724bd01ecaebf5a3feb8c1eff638addfe6f282fda2943cab935590e73897220cc00"
    ∷ sig "0x343938f5cF7a0CDc642D7B5878aBcdb16bA35e11"
        "bec26fe7976ead8d9a021ba15393567f63c72d9521f220c14ecb5c43a188a4e114884be0a6d7ac6a8f2af3b54df58d2ca989eec00dee0984245a9b50a5e7eb0d00"
    ∷ sig "0x7B1F3A3D4cbF9C9005e78d53Ef255c1Be0885Ab3"
        "d8390a28a8239349aa9aaf1f0b2d09f5e897fcbdbe14ad750a0cd34a2494c3351acba3dc9c64bcbb6e38a4fe6ea20ffcac1275a7aa3513969790ca637aa3af2301"
    ∷ sig "0x0fF69f3b9D1bE18BF2Aa514a4C1DB5914671387D"
        "3f9850a125d1d83148dc5940d6de9a9b28ef8779b7736be1f360ef7237ecf48f43798fa1945ed0a0b6a3c49b5bb6d60bea075ab8d6d775c166eca0609a704b2901"
    ∷ sig "0x04290932c5B039b792C0B80F5577f0D773513A97"
        "7d3f4d22db8eed32d2b8e9d8e46b4fe354b0b84c0139aed9ddc5b663f16efc44740aa1d324d6f976c006d64f58a9df0b6b16807efedd9019d74a6f0115e0410801"
    ∷ sig "0x9AD3B16F0D586979A8E88681C19123bC260d0F2D"
        "b3ac98b563f663459e4f7273f87a0c97d37d95c7c89510e012d4de4b78fc131f39ef1decebf2914e272438dc2ffab469c0224386d2b7c47ce51f4a8349cebd9101"
    ∷ sig "0xa49e4Ec3C16f82470FDbC438A527215F6F7805CF"
        "96273819e400fc80cb568091456a9bfa18003aea25e9fb9c6dfd34a4c7df4cdb425e1ec96a7984bc23704ee54b472c2d6326fcb0f9f752030ea238b5e38ce8f801"
    ∷ sig "0x60DA3B2C8ad7A1CBf65453F425CFC4301dfaf8CF"
        "db6cd64188ac167ce558054114dccd4918cb4cd90dcc3cac4cc5c737de1e075a42a73d6c29ddc37c1a25d91ac2490bd92723495c0e460f87695c81f8ea4f4b2201"
    ∷ sig "0x47aD2c75547A9a7637FDd051a422c4fe1773231c"
        "3e211751e659715c448756621f3f88aee825605ecad471884a355b2715697fef14538879d5c00b4d09d37a3053244448f563178c142ae0e4787ea6b53e6214d100"
    ∷ sig "0xf2c0936dD4E3e0325F3764d9B303feCa59706C5D"
        "9b4745abce404c232b476b3b7f427a462d98c8268c1d7cfa3c608b5d09d913825ca04d996383145b6a6df2ba52e2324d8ccf9f731ee19f4ab1eec0f31f8a036b00"
    ∷ sig "0x7C1C8D15219798f72c83a491Eb1D293D5c6C6346"
        "79ab1c81a70924abee5fde2c3dbc0cf91c6e4b563b7283b2558a62a668b1b1af0e35978cb02e31e32f2663810117f5afe0ffac377378ff03cd94f492aa78c91b01"
    ∷ sig "0xFfA1DbD2aa2c8Ee7108B5eC3279135C3f4a803a6"
        "7e3fb750989e75c7118b60aed37681a36b33295a0bb087b7f7dbe4e838b7a6853456fd98f6ee7ae7ebfcae646259877f83cc1466011678cbef1964252da2fae400"
    ∷ sig "0x83691C09f6Bc3adbf34362a0Fc7b36fD4385eB20"
        "52e6bff8d2d625bd62234ab8b12bedf7892736426a5f3c011661a8fe1c758d6479328bd8e009cf3a13b6c1b587ab04ebd9de646f6672f30266ffde78d48c6e6000"
    ∷ sig "0x924fBa5D9189754177AE0e3E9B0dB277735703Cf"
        "af0749c6ac725f168b80d3b6128654d7465c035ae4e80903ea0ee33c722dfefd23fbd6da15bf97449c8326287a63d52679689b186d5f82d6594744b1f15dfe2100"
    ∷ sig "0x0013803A135caA5f3863acB01674D8E614310667"
        "7988061cd736aefe4e8909d09d234cc2269eadaeb6dc43d034943fdc50900c150657de46e0a0a8016641759f68206b780f6c84eaa352c635a3d4c4c125667b2f01"
    ∷ sig "0x0625D2EA23765471ca65938938093F6D06DB9931"
        "66d2cc9345fda8ec6b667f025bfd5e5ac9211fd3d43149a6719e4c3b95082cae3b43e32422e87fbc16c3a5eef2d577b4ecb00078f39e964f1e26c4b9b6b5668401"
    ∷ sig "0x4AEfe9D325E3Fdb79d5a9CdaCE7d76e03A45219c"
        "8a4f682dc0fca03c06be8cab695c8efd2f415310b1f740d15cf67e7527ccd106518e6ae36443000ce6548fe1a2ec62fcf6878d6d767741b674a4949c3bc41b3500"
    ∷ sig "0xDD1A069Ca0a9c2E41F850Aa8703bBB8C194974d7"
        "5f8593e1e32281e506fba138c493eb42e9d60054be328e007a36bf390a3266a836dd01d7f6069d85dc036fa6a4aa0c16943db72adffd868a91303dad179d186e00"
    ∷ sig "0x6d6547912524CDE53e517F35415392Bdf8e1037B"
        "11d8fe00fe7917ab3d1e055c6698550ae31848bf194cbec7522977d89b76117e3c9b5d757882f219604282dbcd318b9538bd0911727cf2dcba23eb1c6475931201"
    ∷ sig "0xa15f760ceB617c4976C678fCEC863787b4af8DeF"
        "214e2e26c22c33ddfcabc1231408c13ca553220a4a00fe1d8636c6d21fb3b90403fd5efc2412f1249bfa34439a953f4f6bffcd14fba40ce5ebeb393c4fd54b5100"
    ∷ sig "0x09626A6e9A79FefA1e0161f8F53F02d8cc33ca44"
        "3d4b278220517b134e38857c80373400f0023102560f8bba546d62715371dbbe460a96dfe7083ba3da76a119ebe1f7075bf9a0434631e2f15228b121d34ec8fb01"
    ∷ sig "0x77269c7CCd2D01f2918877457777DDb554E3D1B1"
        "de83c089b870000d0c2e0153aa86b3df0f771b08ad92f1e38b146ca0c5b8c5bc043cafdd3147eff81d1dd9dd8b7330f97d275d0d92e4bbb128d5893510adf73a00"
    ∷ []
