-- ===== src/Keys/Data/Sigs8.antt =====
-- keys/data/eth_sigs.go, lines 1040 to 1187.
use eth_proxy.Prelude.{List, [], ◌∷◌}
use eth_proxy.Keys.Record.{SignatureRecord, sig}

abbrev pub sigs_8 : List SignatureRecord
sigs_8 =
    sig "0xa0d3bac2B29778FC3cc112c47673216f11CA7Eb4"
      "45d164b64e5c335c03021279c5fc3c088d5e5d91266f5e8cafaad231e46ce93932dfbe9892b3d984fecff5c28fa4cbaf6ae327ea0b739c50ed45eeade39698e901"
    ∷ sig "0x8c41D3375d19E9B53A0B04B96561b0FEa9Fbe8D0"
        "3670ea9984b3e350cde1c0d44385986cf6609e509481f5a42864024cb3bdda136e191b4687f240faee8e37fa735e04ba7abe309ec6e3b047d0324b9fd9b0f44c00"
    ∷ sig "0x1Ee3BdB921D4978Acb2573c5887A20F0B7287fDF"
        "cd5b93be41f2fbe9cb96c43dc101050418934218aab8d115b0a08e06e0e5609a50ea2fc14bee5a71867257d82f66b8f31669ef519a801a3a98303e6ed914d7fc00"
    ∷ sig "0xe9ED092764489eF185675B014e2cAb3ee735B0B4"
        "c6f7ec23d8efcf301f78c320716e1900d56c41c56238b791afbcae4a4a9c716f5158a516b5b9cca8d3e9f31caafc2ce604f2bdb6d29bd0072704ffae612279a801"
    ∷ sig "0x050bdb72A6abfD35CD7cA8650672E86e0E4B125C"
        "509f6a8e3891fb775bb70c6a490b05317a29a8dcc290dee91f0cf77ea7ca0a62125b6b6f57b0654f1a365c0c80dc26e8a3d981572241e16b542d40b8c198ef9a01"
    ∷ sig "0xFef95017c52075d268680BFCa5022539F0E489Ec"
        "ae6a5cad356575e90d90761535b46748ef7dd2738f3eeb0b035082496e4ce9d835afffa968384641812d0490c493271fb8b0cecff534fec130dc3d363555618801"
    ∷ sig "0xEFcb048955030Cd800Aeb63DA855b57D1621e1A4"
        "d2afec0e9004d5b72cf64519672439d228d8b6986ccd3d35d7e2caeb89cc18e86b9d1340d233597cf1ee23e70d832c7c6056cef369afbd914844a4d697749d8a01"
    ∷ sig "0xab0D88F28786f7a166eeB36D9535B613E1250d1f"
        "8cdbbdb5173241fae4c1e682a9b085088a658bb6427cc75f89899f2550b11c1a4cb57e152866eb2bdb89d9a566ab1dcf32dd37d459852ec12b28313434a7644d01"
    ∷ sig "0xfF36231eDf6c28b40f87C4690e5D33763b000B79"
        "5541e11e63a77efbac7997ee9e044606bc092594895b364b8dcba581b8fbad180519a874ce70cf24addb7591c6c1334d904717233a0f201660d4c2e0dfdb4a7600"
    ∷ sig "0x0C1A8E6d563d70584784E3f667A8548DA4396a8d"
        "38e9c5d16785155ec31a024f714a7f9ca4a890c0de640cc57ea0ac048aceb41f162606b33735f53da8acf0fd2566bc47cd6f699d0d1932034b45546422df760000"
    ∷ sig "0x991d6DACf4C358450b143078A8FEe51a18EdfD4c"
        "efba43b13647377ad5be9fb78a8967e35fb9b741b1b6faa225cfe9fce92efc5f54f6e463a9c9cff617e40d3bc9ae9c3524ce102d0b68f3a7954c876fb613137a01"
    ∷ sig "0x57AD2E730034E78FA72267b9BB2b5AdF218C969E"
        "c1c33bb712ab922df3b4408d454b617176aae64433d4ec372a90aee45ec6bbf665549e486ba1aba5a6b10a11c1df524bb716eb7429be57b933ad5213a5f31f9d01"
    ∷ sig "0x4485D47bd13Ffc753b7583BaB0b0Cf7E2d96377c"
        "7ef655a3eaf09b62e638d5c98c833cf7ebae3cc62a6df5f3749aa1d37822d98c1fdc54fa041e7cb83615910387fc93cee24cbe33e5ce50b884189c6a6c9a975b01"
    ∷ sig "0xDF692cB9Cc813c2B2c8F428aec1697f1875303a4"
        "7a5fdd1f47cc720e1125569a61f1ecc48e2ad28830852d606b91675fa7cf8e0a219644432268b75853fe097da7572f03a9b09cc5e14a09afd7c2cdc649423a7101"
    ∷ sig "0x1bCb6D3849311A057b845E5BD8A2352274df0ddF"
        "504f083b1735b0e25335b1f9272e4f52f93e744d80fba45c49e57184bdd95773771162945b93db682089e08b126bbf09ffcbbaadf5f403912138881b155e5f5600"
    ∷ sig "0x10Fb4F863f61fC633aa89bE64e315954B8a0d501"
        "3101a28ea62563b73752281519c8e4a08d9172d4957893382351921d0d8f5b9d430bdda1f83a5fd9ba34527204c1b668b8e5022ccb87c669bdfbfe159c260e3800"
    ∷ sig "0xb842bcdaF7b98CB28ADaC611D6d155FEc78CD267"
        "fca0be3fb385e3a5d746ce85150991a6e0f407d94e7bde6092cd1728214f72083de8850f10aca362f7112ec1bc5812757c15186a06112c063ad70f3fb877ae0401"
    ∷ sig "0x6315D799b0321b6159a3D34893b6F6040E44b553"
        "724a25d3a94ba856fbbd1d9810e914cb5fdbfd43a543a8e850f95a0dde523a5e6e4c949c4a9241e6bd3611b71de5047007b246479dd5b2c5df90bf72e774474e00"
    ∷ sig "0x70367Af644EA15490a6672F02Cb13e4512D29811"
        "ce62340ae3a3f94af8e9180a23f977479c7f718b8154e619cc16c7c1524b51ba6088470a603ae411019a31e0ad683d4c468926145491a1d91372220fd42063b700"
    ∷ sig "0xb943a9460833935eB326f5BE5fa4db4d9C1EA1Cc"
        "70a72ba833185561a2856810349fb90e05c970072441960fe60b0ef8edf09c392b24456b94eb2fb1af01e0da3f91195cf0e7878decc89e984af318a0d4f173ec00"
    ∷ sig "0x57b9916D9217a75561Cf9f07b5b9F452D0943860"
        "750d6ee5e874b497c841e034da4d399a7a92e53f0ea1b9e53cff87d2f6dc81986e640c1e58233ccb7705f3d6b2ecc05c83c686796e548721fb6be31291766b4f01"
    ∷ sig "0xb7A4D01686BD31BBAcb05D3FF29BBecB207B81Fb"
        "709b8d2321ff176cbd23e81ff6b30250c7709e830715b7cd4b73f84d480fccee2882f53cf583b615af0739c13e212fd627a9da4806a68cecba0d97071837fba400"
    ∷ sig "0x076629f92f08Cd8a5E22b2B8D87863d66F0d36c6"
        "bd321c2b7e39c12ea8c0e305b7d7425787dd751aebb967fcc8ac63f34b5b011f7767f0a11560eb66cde3daf2713f27facc14bf131764a1a563e74b8b5a06dd8300"
    ∷ sig "0x98b6014c7aa17ce753ceE46E6d701a313559a117"
        "1c9167233ffd5ddd58ee21357bcec30a0de55d20778c8f0d29bb2d254a6a22e11ed7b72eab130056f2cd95f5df00a8597a46d897aa921bbf5296dcf1c93d28c901"
    ∷ sig "0xfC1B8BBD2de03Fc27BfcCD64118eE1B5c46ca73C"
        "0ff88f2c3c99144b6c0bb6da4c70a29c935c57d0bc9fe42f57722d09d025d8f14bacadc5397eb01b45f27de5a3555d11c8f77701f4b5b2f7fe19edd1b265424d00"
    ∷ sig "0x52De320E7fbB0efB44f348663EC1d7145f2851Ff"
        "94234c2373542e851e283432f161685208517c654727119de8148620069836f37d3e3036aaedb6047d7210af6a6139ddb5b531179622830a6962c6f9bbe6c3c400"
    ∷ sig "0x3882F46F0334c3716b343D24DB9f59Bc38eE3663"
        "a86f91bce59f1f6bc9b5f264ab85ffd48283e36c0ebd87284185fe0660fac1722f3c5c767567d622797516f4de3f1ff981ac48c947cdfb345dadc1ab8ee1a7da01"
    ∷ sig "0x69f546F9a43681eF7696495dC4753625C4a05064"
        "326d0b59f371bfed9ba03812c0a8efdd7295e6e98e4919f128d8d86d3121e03b49fc069c7e1bdd4c7fb2c63809a4778b504cbfe8edbc285f13385ffcf854dcad00"
    ∷ sig "0xACb459F0d740B1D7265dC5DCFBF4eBD39Fd6Cd3F"
        "175d952f5638b38fe541a54c9bfa779610f51c9ea1965de826d316e0459d48822e91a5c7d6d6691d3f442198c39000e68d49fa43b0789ff2063285870ee620c301"
    ∷ sig "0x59237e593E7a1C6D44A5EC2c8e6623B31465028A"
        "02597b6542e4064223ed2f3a0765572ff97bfc61938ec3d1519c1788640ff2c94058e2009097a069e2560281c6ff4e71aa3fd9495953493020c3f03886876b9a01"
    ∷ sig "0x9f1090F661e24b9bf0B576cd374453E73089e454"
        "7dde82cf2d6ce1a201b4fe17ddadec59d206db0a1cda9e5657a336d47eae956f1cf3ab141689bf277652918f8149b94371e3664b29b90f0e85d2a308a1cab0ac00"
    ∷ sig "0x1635199127aC59AeFCb9fbD31AbFe67bBE00324b"
        "521a6377ddd448dc8641dd34fd0bc1f32d0ec85662549020f0ce3dda2dba0f0261536a81140a3d7a8350ebd5c3b590d6e7509085865908e5ee848d4264f9db5200"
    ∷ sig "0x6fCFa2eeff31a1D69b892923B74cD2AF400d6F97"
        "9facd3f13e92aff4ef3f7afe5c982a59a0e906323b4a8e8e0495bdf69de0bf7c46be472f8b7b4f137e0dd1ae5e462e15e1976cf4a2f310a0bffcbea0b0d63bc601"
    ∷ sig "0xdb4f810aaedf1a467807b7DF7f5Bd7cf673C55Bf"
        "ac9a5059f0f3a13861eae41112d0ba9e4a38e94bcc8138ef9e0934368e1f60d72612181f99e502839c31fe27aacbe32e4fa15c728d086ef5a296dc44fb3e0cd200"
    ∷ sig "0x1D451b6112aC3130960B35be0E18f73D3b37Fa1F"
        "328a9aa420c7efa939f8ac180e1b78a2ed2dd0f2f0fd89a2cd17417f29ea3c5f0605bfacddb3f5e7ff613e523cbccdfc2be4188ab1206008c21f9b43dc5597a401"
    ∷ sig "0x1f48eE50B347474eDEA782B7f267311941FFF6ac"
        "10ddc220874ddc823bf2a8a5670b641793de206283eae6e18f7e1acb95b543841f75a2951ddc17d80acb796ae837a9ca8db0b34e1fc70033b4edd0e9f741902f00"
    ∷ sig "0xdB298D25d03d2Fe72FFB5b3bd3580dAC08FB5724"
        "859c0f78b66ecba877b2a4a8b0febb4b61bffbc1f01bd683c19cac6af5d7c5447afca71af0a14d5de0197e1e308fb143f3a5e29dbcd1f589c27cfb519af993e800"
    ∷ []
