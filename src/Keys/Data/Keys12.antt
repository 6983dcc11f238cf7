-- ===== src/Keys/Data/Keys12.antt =====
-- keys/data/eth_keys.go, lines 1632 to 1779.
use eth_proxy.Prelude.{List, [], ◌∷◌}
use eth_proxy.Keys.Record.{KeyRecord, key}

abbrev pub keys_12 : List KeyRecord
keys_12 =
    key "0169b30032dc44915286f1a1bfad0d17cc622335050db9e3e1dd6fe5f0249182"
      "0xcB54029eDd9bd729728cFf739cd8E741dd338Ae0"
    ∷ key "a81bfa5bf18fc16de9e58691cd35fb24cde9b28e266ec286060027b861996735"
        "0x8EdFf328677B6672F2feF63d0f2c5e2293e6543c"
    ∷ key "b3b81c25bc27b5a70d2d195a620013b843a217547cec5ae3bc5d50ee9b95b8a3"
        "0x2eFDE9aC65BDc64c9c2E9e266C2375669C556A6F"
    ∷ key "11983f6fae60ec42c898c8e6c13debb577045053f60654b47775a2e7bbcf5e00"
        "0xAdA2726E5DA26ecFc94000f27B6189Ee2c59F8f9"
    ∷ key "e25516d429c664cf1b5a4ac4fa1b40848785ca7b4ab1dfe3259f008196c80888"
        "0xdA481A0587ADb22CFB29c0C2Fa04f3E9bcE70D36"
    ∷ key "2d811bea2a9d7ec199915ec263753a32b394d6f05b97582f91f7d5813d60d568"
        "0xC07180F754d82E8e46E65D88F7921396f7F29A75"
    ∷ key "5c775b8a9a9c2ea9cc9801886f194288acd79d52c78998a64e8dae225d2a4985"
        "0x906ca0136AB62ca6A14d66b55E87ae1999495407"
    ∷ key "b06fa3c8b97e78224a55047d55a88e34f53e61ed9a96c805f055766440052079"
        "0x7021Fc3111e9d7658121234aB7444d18a34b4681"
    ∷ key "a8eebd8144351e6ef2f61d37f392c97123aa908dfbd668e7a642e233ed3a873d"
        "0x6357D0BA86AF1Dca68E5ad6b70a8F8BaFc8a5625"
    ∷ key "b0438f59f783092fc956b08ad79667395113e9eb343bc395d5459a1f77c21858"
        "0x01678190dB7aAa340F9EaCAB60FA136B0Cc3CDbD"
    ∷ key "602bf4105ca27a530479b8714996e2ff1ad6ea3d33958729bf8b8ba6a57eaa0f"
        "0x6cEb3122911B35b871C76c102e498Ada1A97FA90"
    ∷ key "78625b137ae37b47253dc1028e65f3cd21252af9a9c878d27c4f79ac13d43482"
        "0x0760733ff2Ee17d5f16632E4F612D60Bb311bB04"
    ∷ key "d52b85d4477ab5ced116c6058045ae250c055877b0bd50959921a023ba5fdfe5"
        "0x87635b3AD7DdC1175e7405387E9dA373b6402780"
    ∷ key "e1cc04742153640c739fa5468e7d2e9f1d2db98ea63cfc4d7bd2416e07a99af8"
        "0x51977818DC4549e8f550A8BFb01B260629f4c94D"
    ∷ key "ae5fcdcd36b274eb84660d4e3ab7146fb5897a1a409446cb8042475dcd6671dd"
        "0x8626F1531473C1F89fBaaD8499D2Ee866eC8Df35"
    ∷ key "d6db08486357919f6f0ee1385e1c0b41cf5f6bd6e735c090b34255541b6af239"
        "0x43c6843007180263FF3Fd97a1B5f2aEc8DfADFb1"
    ∷ key "e841fca8d8d510fa4f21fbbabf197b614de076dc630d0a4c5b4365cd51b999e5"
        "0x742c8521Dac0D1E796308575C0a2058bf21D16f1"
    ∷ key "3f5347bfc34944c8cfadfc1371762820da067553f5facdaabd548d20e2b1d1de"
        "0x4396A59D2A24a28657120Ea0DE56aFCd4AAe9D21"
    ∷ key "276d7e4d2ef6bd2f72b44f33d00b8de4f97876556d39b561d4b2676377a8ce85"
        "0x27a846dAf6b2F3E0D4c3aFE444D9f73dF6c49fDb"
    ∷ key "d9882b4ab8fcb8838bc13efb3b1e96dc94adb13c61ee1e1ed6aedc60005a2152"
        "0xF7E42dD91953E520c16c7383b6555F887b52C2Bd"
    ∷ key "a3deac88e9e14d918a0f225485eabc87e6025250b00a59a3bf27dd8ae91d4b34"
        "0x84185c23d27C8b0a7cCD219d7b086A7F10c62016"
    ∷ key "2d00e0f33daa340dfede0096c1c6de7ced6e030f567b547fcb923cd95062d334"
        "0x5BaA8124A0f6AE2420800D683364AC7a700E2f21"
    ∷ key "cbd8106bccb72fa0c440f48f0655448933be95d24e6919935903cb9c9606ea14"
        "0x42282b0c2980c84b7A09df1C5A2Af7F99faAb959"
    ∷ key "4957006a25db3bc600813f15a8d813304c68c0055da9eec754f6f3c3cca54697"
        "0x781C33C9410e9f00fC63984987425840fC0eDf61"
    ∷ key "3c8b406923e50bbbe0f1f16fac027faea84c1e512d8c3182499165ca5fe44434"
        "0xbfb5859a8BF3553eAe249F27bD9108Ab8Fd654c6"
    ∷ key "f4e17632c11ed77635bc3f38ebc7fdc85d76b27cd6f300f172c7b487e5741ab0"
        "0xd3B910e0B7e237ff561c85624d22064C159E1A7d"
    ∷ key "7892c6439d81f382b0ea5a09ddfeeef61660e49836f567d4e5729c84fbd3b815"
        "0xEe055C9Efa280Ed735aB453429ebeE7D7048846A"
    ∷ key "f980d417e79c0ab12a479367c0730050b8f07bea15579c7bbe635e12d21d99fd"
        "0xA9D3C070D8Da50160bDE0404Dc8279139d9BfAB1"
    ∷ key "03bfbd70fd4f742467617d35e06e1bd3832a817fc0a5c758a1bc0074834c0dd7"
        "0xDb288B949d4c97c890f363d75a058B45d9d8Ce48"
    ∷ key "06883312207b0d3346dcacf09ca30b526bc07d714473cbe9049e53cb137c3e83"
        "0x44Ff0B6F0FA6e7690dd17a98BCAB92e712EFf336"
    ∷ key "8ef7bbb8ac944d2e89cc0b71c344446f2005a42086195b6fc3715190803701a7"
        "0xBE4435D19b68b47d7b18a7A3C59145e36b009925"
    ∷ key "afb22f994d0b0863b40050fb1ad8d091afa97a3a2fdcc09145325c8fe7565757"
        "0xbe0e4638aca74fF2C7EF0C1D40Ce4dE8075F5567"
    ∷ key "92b91af91ec392884c088acae075ea52062fa2ad727723fa4174e57379c270c4"
        "0x3bd604c782036648489b126855AAe5166FEbB6A4"
    ∷ key "1d589ac8782e912e6e6a8d264eab1de49cad990b594500fa56900f04f635cdb3"
        "0x582a8Fa4A8e4B05b7F743D5E399110FB97a6C06F"
    ∷ key "e5d39cfc94dce31cc221e877e0ca5043627b83c35e97bbfc6cf79249141c2c98"
        "0x33338A9EC5c336baF6CF0a3D74821b81aA7825f7"
    ∷ key "1ab2b3561c06d66bab98427dcf73441541fce788d5af1c602dfe918091f64d14"
        "0xec36EcB29F99d785fC6019587Bc86C8981f08372"
    ∷ key "3938c666b1d2553e1b0408f9e5fe108f4abb0b0ed3a8b0f2422068d0cb45dab2"
        "0x120B8e72f3EB3faA1Cb320E4710Db08CA94bAF6e"
    ∷ []
