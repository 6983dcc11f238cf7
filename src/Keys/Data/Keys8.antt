-- ===== src/Keys/Data/Keys8.antt =====
-- keys/data/eth_keys.go, lines 1040 to 1187.
use eth_proxy.Prelude.{List, [], ◌∷◌}
use eth_proxy.Keys.Record.{KeyRecord, key}

abbrev pub keys_8 : List KeyRecord
keys_8 =
    key "83c895762a65b892f5a9488075d6d696b7f5edd052e81ae011b92e2b9df49f1f"
      "0xa0d3bac2B29778FC3cc112c47673216f11CA7Eb4"
    ∷ key "f8deb97c64a504438e61a21f6a6b85130d7e2053eb8bec0fa10e989d47770774"
        "0x8c41D3375d19E9B53A0B04B96561b0FEa9Fbe8D0"
    ∷ key "48bf767c25f53e43791174758a1ae8784577a4b71b933f24d731d6f925d2c981"
        "0x1Ee3BdB921D4978Acb2573c5887A20F0B7287fDF"
    ∷ key "d60d11332ade6ec51a980f8fa3d0086ca3d5d6c52e6735ecf030d3dce339c7fa"
        "0xe9ED092764489eF185675B014e2cAb3ee735B0B4"
    ∷ key "0efb40519abb10afffcd64687b1d2f22e230357726619e8099d0281b97efcdfa"
        "0x050bdb72A6abfD35CD7cA8650672E86e0E4B125C"
    ∷ key "3e17f742701e6de357fb041d74df8f3b7d54006ba72e47e72b84f841053d21ec"
        "0xFef95017c52075d268680BFCa5022539F0E489Ec"
    ∷ key "16a7493f1ea6904d7ad9f6ee6761e1eb5ea2853bbb540a801675ad74e33a2d70"
        "0xEFcb048955030Cd800Aeb63DA855b57D1621e1A4"
    ∷ key "26b12fa7c73684b57398b99e16e1736c4bcbc9902c8fe86d71115bbd0580a763"
        "0xab0D88F28786f7a166eeB36D9535B613E1250d1f"
    ∷ key "a0a3157d6d67f0f7859e7dcbc2b49e0b8e3d41816a254315f642a63d21a5e54b"
        "0xfF36231eDf6c28b40f87C4690e5D33763b000B79"
    ∷ key "016bc673f98e212b0c15e19755434b90beba245edc8bef388fe9eae3907f35b9"
        "0x0C1A8E6d563d70584784E3f667A8548DA4396a8d"
    ∷ key "c6aa42129c86c76301c1bfe485f0c9502573cb0e7c9bb76ccd4a2f8c29b45f3d"
        "0x991d6DACf4C358450b143078A8FEe51a18EdfD4c"
    ∷ key "dde27cd5ab5c78fcd48054f26229336f4bc6d18ef47c1d16889e649257508955"
        "0x57AD2E730034E78FA72267b9BB2b5AdF218C969E"
    ∷ key "a85ad9b456d65ca849f555e940b13f8952438be2ef8b0d233d77fd3694f685ea"
        "0x4485D47bd13Ffc753b7583BaB0b0Cf7E2d96377c"
    ∷ key "0129ee5cc20dfd859b1446d9b2d618c2c6714fef5eae4aab636e5721640d1020"
        "0xDF692cB9Cc813c2B2c8F428aec1697f1875303a4"
    ∷ key "fb1d76a6152c0a7593849c855fe1302cdc61f384118b56ca515de88c53aecbc9"
        "0x1bCb6D3849311A057b845E5BD8A2352274df0ddF"
    ∷ key "1100b1c9654ff552e4824a67e0aec1c35e7fe53f61408b53511905c6c29497c1"
        "0x10Fb4F863f61fC633aa89bE64e315954B8a0d501"
    ∷ key "1f378e4112bae9f2fced4228ff6f1c8ed6f741bf0b6c8ee2176219578f22aa6e"
        "0xb842bcdaF7b98CB28ADaC611D6d155FEc78CD267"
    ∷ key "2d93efaf4f798d430630d8f46f711fc816475668d010263c7b7226d950816c92"
        "0x6315D799b0321b6159a3D34893b6F6040E44b553"
    ∷ key "9dee6c2720a4db3db34f9cf72d442706eae441abe44fb86209ed3b00a5c9adb5"
        "0x70367Af644EA15490a6672F02Cb13e4512D29811"
    ∷ key "987bb08997c87f705683e17ec0ce206ea781e93483d5b2cc5a9a4987d31fa135"
        "0xb943a9460833935eB326f5BE5fa4db4d9C1EA1Cc"
    ∷ key "931425f6981401289ebe6dad0ee0f7c0b35f1c8837add38904b068ac4083255f"
        "0x57b9916D9217a75561Cf9f07b5b9F452D0943860"
    ∷ key "06c7ec122f32a438905c17e7be4b4ae5f9cddf0b79f3b55e5b36805a512a4f31"
        "0xb7A4D01686BD31BBAcb05D3FF29BBecB207B81Fb"
    ∷ key "d37f550c4b9defc3af5e91fdc8bf5bd115d21095380a4306afa05284c4068f73"
        "0x076629f92f08Cd8a5E22b2B8D87863d66F0d36c6"
    ∷ key "c2df397806333ef10cf64a4e8bb4ed3ab5580dc3f29f0719bea7e49f78c03875"
        "0x98b6014c7aa17ce753ceE46E6d701a313559a117"
    ∷ key "ed44914983d73b116e709e1f8e28c445e0d688237d64613e9339795047f86d64"
        "0xfC1B8BBD2de03Fc27BfcCD64118eE1B5c46ca73C"
    ∷ key "771aef56c88d0db1c491bcf3a36d880768ba80092ea6acbfc3d193598787ddca"
        "0x52De320E7fbB0efB44f348663EC1d7145f2851Ff"
    ∷ key "c414258003a3dfdf8da5def418ac1a6458ac06088c88455f7abf4e0a2b164ad8"
        "0x3882F46F0334c3716b343D24DB9f59Bc38eE3663"
    ∷ key "369b795f2ee40e94446a6c98a1d52dd947754fca6d5d3fc93878f3976c9187a7"
        "0x69f546F9a43681eF7696495dC4753625C4a05064"
    ∷ key "12d7afb559aaa64d07daa4adac1c4deab68411af6da20edc3d13a11b167140d5"
        "0xACb459F0d740B1D7265dC5DCFBF4eBD39Fd6Cd3F"
    ∷ key "0118f260da31af5d83b3384b11758ddfdeb83b815e1ddbf35e8446cd46302b71"
        "0x59237e593E7a1C6D44A5EC2c8e6623B31465028A"
    ∷ key "eb5f1504fd657f10f264dfce0d384c8f6b6888d6b93083539dc253253d4df213"
        "0x9f1090F661e24b9bf0B576cd374453E73089e454"
    ∷ key "c4ac34eb5e79c840f7a50075284fc37b50e7e76b6bafda622a9a1751a8a51e5f"
        "0x1635199127aC59AeFCb9fbD31AbFe67bBE00324b"
    ∷ key "43b46674f1a97127b1daad999beac10598fda6823b83506bc56c525a7dad4775"
        "0x6fCFa2eeff31a1D69b892923B74cD2AF400d6F97"
    ∷ key "88f52443b36bfe9a9eb8c12bf2e0aeca61080fcace124e8cb38886ed625db227"
        "0xdb4f810aaedf1a467807b7DF7f5Bd7cf673C55Bf"
    ∷ key "5f20e5daf8a3fcb078be82decedc145f265d774052011410b41d3d5eda2e796b"
        "0x1D451b6112aC3130960B35be0E18f73D3b37Fa1F"
    ∷ key "54c21c7132928168faf13b4f1555411e0f23bd830dd2849713fd0514c02c81da"
        "0x1f48eE50B347474eDEA782B7f267311941FFF6ac"
    ∷ key "824b3fd7a315623214f0809a1bb29e26eed1f133b1847d2d43059224c5d7a629"
        "0xdB298D25d03d2Fe72FFB5b3bd3580dAC08FB5724"
    ∷ []
