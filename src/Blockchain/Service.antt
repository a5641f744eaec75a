-- ===== src/Blockchain/Service.antt =====
-- src/common/blockchain/blockchain.service.ts and src/config/blockchain.config.ts. ethers, Keccak-256 and
-- the parsing of URLs are parameters; the log is left out.
pub mod Laws
pub mod Tests
use a2a_agent_layer.Common.{
  Option, none, some, get_or, List, [], ◌∷◌, ◌++◌, Text, codes, Outcome, ok, throw, ◌>>=◌,
}
use a2a_agent_layer.Common.Dict.Spread.{spread}
use a2a_agent_layer.Config.{Env, given}
use a2a_agent_layer.Observability.Tracing.{Span, ReceiptLike, traced_call}

-- What is called of other libraries. A signature is made with a private key.
pub record Ethers : Type 0 where
  -- `new Wallet(privateKey)`: its address, unless the key is refused.
  pub wallet : Text → Outcome Text
  pub sign : Text → Text → Outcome Text
  pub keccak256 : Text → Text
  pub url_host : Text → Outcome Text

-- What the service holds after its start.
pub record Connection : Type 0 where
  pub rpc_url : Text
  pub rpc_host : Text
  pub private_key : Text
  pub wallet_address : Text

-- `blockchain.rpcUrl` and `blockchain.privateKey`, where the configuration has them.
pub record ChainConfig : Type 0 where
  pub rpc_url : Option Text
  pub private_key : Option Text

-- src/config/blockchain.config.ts
unfoldable pub blockchain_config : Env → ChainConfig
blockchain_config env = record {
  rpc_url =
      some (get_or (given (env (codes "BLOCKCHAIN_RPC_URL"))) (codes "http://localhost:8545"));
  private_key = some (get_or (given (env (codes "BLOCKCHAIN_PRIVATE_KEY"))) []);
}

abbrev pub default_key : Text
default_key = codes "0xac0974bec39a17e36ba4a6b4d238ff944bacb478cbed5efcae784d7bf4f2ff80"

-- A value that looks like a transaction's receipt; a signature is a text, which does not.
abbrev no_receipt : Text → Option ReceiptLike
no_receipt s = none

module _ (ethers : Ethers) where
  unfoldable pub safe_host : Text → Text
  safe_host rpc_url = elim (ethers.url_host rpc_url) [ ok host ↦ host | throw e ↦ codes "unknown" ]

  abbrev pub connect_with : Text → Text → Text → Outcome Connection
  unfolding safe_host
  connect_with rpc_url private_key address = ok (record {
    rpc_url = rpc_url;
    rpc_host = safe_host rpc_url;
    private_key = private_key;
    wallet_address = address;
  })

  -- `onModuleInit`
  unfoldable pub connect : ChainConfig → Outcome Connection
  unfolding safe_host
  connect config =
      let rpc_url = get_or config.rpc_url (codes "http://localhost:8545") in
      let private_key = get_or config.private_key default_key in
      ethers.wallet private_key >>= (λ address. connect_with rpc_url private_key address)

  unfoldable pub hash_data : Text → Text
  hash_data text = ethers.keccak256 text

  unfoldable pub traced :
      {T : Type 0}
      → (T → Option ReceiptLike)
      → Connection
      → Option Text
      → Text
      → List (Text × Text)
      → (Span → Outcome T × Span)
      → Outcome T × Span
  unfolding traced_call spread
  traced receipt_of connection request_id operation attributes fn =
      traced_call receipt_of (codes "blockchain." ++ operation)
        (spread ((codes "server.address", connection.rpc_host) ∷ []) attributes) request_id fn

  unfoldable pub sign_message : Connection → Option Text → Text → Outcome Text × Span
  unfolding traced
  sign_message connection request_id message =
      traced no_receipt connection request_id (codes "signMessage")
        ((codes "blockchain.signer", connection.wallet_address) ∷ [])
        (λ span. (ethers.sign connection.private_key message, span))
