-- ===== src/Keys/Data/Keys1.antt =====
-- keys/data/eth_keys.go, lines 4 to 151.
use eth_proxy.Prelude.{List, [], ◌∷◌}
use eth_proxy.Keys.Record.{KeyRecord, key}

abbrev pub keys_1 : List KeyRecord
keys_1 =
    key "cea5a5eef22ee676d232be30e6c096246e28d2d6f255f19029dd9c1ef58d86e2"
      "0x3810E766FA0BA23Dd8Dc0c0AE3189a5d643Bf398"
    ∷ key "2536700e1c6f4686348858befedd7f75c7ba31c0985de3b24331d4f9ea1bfdbe"
        "0x7E9308d9785823364b1a1EC8B1f01fed61B19c0b"
    ∷ key "7b67648d67430e1d6637acbadf1c79f36387393e7ce056e54d07bae2f42aa3f2"
        "0x716b40BE166035eec515dCa7D8c793baAc838B26"
    ∷ key "d9514fa27bb298fdec96b4f481ed399bd6ddf977a5182be132918531d76657d5"
        "0x0871df743Bc9513c571Ba4b373Eb741EFA01dC87"
    ∷ key "ee0b07075434d53f00eaa9e0d094e3e1c6e1e9679ddfae56dafbe2d36a261e38"
        "0xFB3D8A0cB1D4838Ef9dbBBD2580f29aD64Ba521A"
    ∷ key "2030d2832070584f1458ec68e8a238a6401cfc44654e83372ae2e094033480c8"
        "0x9A5720aF43b13D89125e887bb601D2f2b3F05909"
    ∷ key "a97164d173a79f7d511070d03818ab6f305a17b52dac67176f8287dcef8c6dac"
        "0x6CDD14E4747ce7706747d179339a735A04FB91CD"
    ∷ key "e4612ec0c2d058ff7df1f7a0b91d755e8e0d3db8fffb4fbbfdadfaeb1a895db5"
        "0x5956B47BD8c27B6b295118B5Aff3580ce4aC0c73"
    ∷ key "8ad1dbb51f02440b1a44ccec13c9ef3947816e8d7e8957483fe96307e0b91016"
        "0xeA645256486D3f6a32c5DF832cc58Fe6f53312Cb"
    ∷ key "465383ef236bbaccd7ce0e6b999b35fe0dbf42b000e74d647c213b17e55357c1"
        "0x0C55bc828c50ad19EA91808370164479fE773005"
    ∷ key "68ea574aa45760daac1995d3a6b69c67e282bea9e951c74ecf0cfdd08550dfaa"
        "0xBBa0b8cE1c84786907c917db3a969262BD9eA7E2"
    ∷ key "b1cd314117ca812cf354f34738faf2fe30809a1e42a65060173ba7e8bd1e62de"
        "0x782F0E93a41bC92016F0C1196D976D4e6AE4B7F2"
    ∷ key "65a6aee1855889c1b4daecc0ee7c4ab7386a91d0f1a31dfb924d1549071a87a0"
        "0xCC5e9132865950Dc49C47555FBF1900586FfaF5a"
    ∷ key "6db0a3e570ed42e689f2372820788cf03edf23f610dded475471ab7dde379c01"
        "0x55e64d2460ed9bEBA47B34A772eB0BF549a34152"
    ∷ key "e39f4b7421c7bac6cdda84734e900bea7339e3be0bea328efcebf47c9ffa67da"
        "0x215ae27E543803369D567Eaa498cDC15190F3B88"
    ∷ key "c7ff653513a5e7318d3c2beaeb1e3a322054800057c584786dc14a306ab8f9ca"
        "0xD54BCDB479a184756dea7DCaC521C827b6e4c656"
    ∷ key "a51cb17c7f050c799d9a57dcc55a2b1aff14f6ad265b8fc03c378eb4b3797f73"
        "0x343938f5cF7a0CDc642D7B5878aBcdb16bA35e11"
    ∷ key "c683b32460720b003d96f554b410cecd661308d4034785e2c739ad82e1e9ae27"
        "0x7B1F3A3D4cbF9C9005e78d53Ef255c1Be0885Ab3"
    ∷ key "4ea5d2044daea53ce2713b3729ff980af43ef35c257b6388725733e469c16eab"
        "0x0fF69f3b9D1bE18BF2Aa514a4C1DB5914671387D"
    ∷ key "c82b30cf7b146cf31bb7b8ee899b636ad1b6fc6a4f72f3e5d142bf3569f7a6a4"
        "0x04290932c5B039b792C0B80F5577f0D773513A97"
    ∷ key "b89094709989257208bf0737e346b9b1ebfbc7973184254993097120907894cd"
        "0x9AD3B16F0D586979A8E88681C19123bC260d0F2D"
    ∷ key "2ad7cec6ff17b6cf397a355d4e554fd9396897caeeb6d70cbc7c75845a056806"
        "0xa49e4Ec3C16f82470FDbC438A527215F6F7805CF"
    ∷ key "1217cdbf3ff142dee9b0094b706a5222713011736c9de04b59f22b4fd03c5ab2"
        "0x60DA3B2C8ad7A1CBf65453F425CFC4301dfaf8CF"
    ∷ key "4feaed16c21f017f25f9eed9be8233d089367e6730d0ddd5da5c05ddb0d397b8"
        "0x47aD2c75547A9a7637FDd051a422c4fe1773231c"
    ∷ key "bc03d29dd7b1e623e0e1be710f5dde013770446f5ad14dfc79066d776744a013"
        "0xf2c0936dD4E3e0325F3764d9B303feCa59706C5D"
    ∷ key "ac223dfa21f72a1b35f4de2cb7c7d87e0edb6792fc9048135c734e7d4b64ad59"
        "0x7C1C8D15219798f72c83a491Eb1D293D5c6C6346"
    ∷ key "c2be50817aba7a4dfe7c9ecbd6c0dd4586965829ec75f117c1d5d9a66173f1bb"
        "0xFfA1DbD2aa2c8Ee7108B5eC3279135C3f4a803a6"
    ∷ key "da3b4d1e910aeaae9aa2b2dfb3c890f5c6147af3cf44385a05946f86cfb4f1a8"
        "0x83691C09f6Bc3adbf34362a0Fc7b36fD4385eB20"
    ∷ key "c5375411b03d3fcfe638431af9f26f186eafd0fbf5ee4e38e9d6274a0a11b503"
        "0x924fBa5D9189754177AE0e3E9B0dB277735703Cf"
    ∷ key "cdeba14de0f9317a06fc06552e9832ed6e6a3253a54af9f28197c5c139b25eb1"
        "0x0013803A135caA5f3863acB01674D8E614310667"
    ∷ key "67d875c9aa5ef80520c068f3ac8474f96728db00bb6adddb3296f736c72b7223"
        "0x0625D2EA23765471ca65938938093F6D06DB9931"
    ∷ key "8d174c0bb9885ba7579a994f6aeb3b5396f754a042acd4a77d8f0f1fd91f4313"
        "0x4AEfe9D325E3Fdb79d5a9CdaCE7d76e03A45219c"
    ∷ key "24578889663617cf914e2ed0e1c5a7d4e86320c2633cd90d930c35bc854804de"
        "0xDD1A069Ca0a9c2E41F850Aa8703bBB8C194974d7"
    ∷ key "abb790c616404269039e73bd2504b50f540656916139dba8a20d54d0b50def4a"
        "0x6d6547912524CDE53e517F35415392Bdf8e1037B"
    ∷ key "2395943ff3cdf81dc0e6627a06d1acf7e362559ca64a87f1b91ffc54df28dc69"
        "0xa15f760ceB617c4976C678fCEC863787b4af8DeF"
    ∷ key "7cd5bb02a3873ced0f24b14146b4c38b2c3da7abc55425944e145f2612c20a72"
        "0x09626A6e9A79FefA1e0161f8F53F02d8cc33ca44"
    ∷ key "e6b3f5f25d2a0415e8ffb3d5132084b834b25e8bcb888a8590db417ca4e4b5c4"
        "0x77269c7CCd2D01f2918877457777DDb554E3D1B1"
    ∷ []
