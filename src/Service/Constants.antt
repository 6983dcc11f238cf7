-- ===== src/Service/Constants.antt =====
-- proxy/constants.go. The version is a variable that the linker sets: an argument where it is used.
use eth_proxy.Prelude.{String}

abbrev pub service_name : String
service_name = "eth-proxy"
