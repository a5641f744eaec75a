-- ===== src/Blockchain/Service/Tests.antt =====
-- A wallet that refuses an empty key.
use a2a_agent_layer.Common.{
  ◌≡◌, refl, if◌then◌else◌, none, some, [], ◌∷◌, Text, codes, text_eq, Outcome, ok, throw, error,
}
use a2a_agent_layer.Config.{Env}
use a2a_agent_layer.Blockchain.Service.{Ethers, Connection, blockchain_config, connect, safe_host}
use a2a_agent_layer.Blockchain.Service.Laws.{connect-private_key}

abbrev wallet_of : Text → Outcome Text
wallet_of [] = throw (error (codes "invalid private key"))
wallet_of (c ∷ s) = ok (codes "0xa")

abbrev ethers : Ethers
ethers = record {
  wallet = wallet_of;
  sign = λ key text. ok text;
  keccak256 = λ text. text;
  url_host = λ url. throw (error (codes "Invalid URL"));
}

abbrev keyed_env : Env
keyed_env name = if text_eq name (codes "BLOCKCHAIN_PRIVATE_KEY") then some (codes "0x7") else none

abbrev connection : Connection
connection = record {
  rpc_url = codes "http://localhost:8545";
  rpc_host = codes "unknown";
  private_key = codes "0x7";
  wallet_address = codes "0xa";
}

connect-private_key_example :
    (keyed_env (codes "BLOCKCHAIN_PRIVATE_KEY") ≡ some (codes "0x7"))
    × (wallet_of (codes "0x7") ≡ ok (codes "0xa"))
unfolding connect safe_host blockchain_config text_eq
connect-private_key_example =
    connect-private_key ethers keyed_env connection (error (codes "invalid private key")) refl refl
