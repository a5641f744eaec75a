-- ===== src/Blockchain/Service/Laws.antt =====
-- Which key signs, and that tracing does not change the signature.
use a2a_agent_layer.Common.{
  ◌≡◌, refl, Outcome-cases, ok, throw, inl, inr, Option, none, some, get_or, [], ◌∷◌, Exception,
  bind_ok, ok_inj, ap, sym, ◌∙◌, codes, Text,
}
use a2a_agent_layer.Config.{Env, given}
use a2a_agent_layer.Observability.Tracing.{traced_call, start_span}
use a2a_agent_layer.Blockchain.Service.{
  Ethers, Connection, blockchain_config, connect, connect_with, traced, sign_message,
}

module _ (ethers : Ethers) where
  -- A signature is the wallet's own, and an exception of the wallet comes through; the span of the call is
  -- ended once either way.
  pub sign_message-sign :
      (connection : Connection) (request_id : Option Text) (message : Text)
      → ((sign_message ethers connection request_id message).0
          ≡ ethers.sign connection.private_key message)
        × ((sign_message ethers connection request_id message).1.ended ≡ 1)
  unfolding sign_message traced traced_call start_span
  sign_message-sign connection request_id message =
      elim (Outcome-cases (ethers.sign connection.private_key message)) [
        | inl (s, e) ↦ rw e (refl, refl)
        | inr (x, e) ↦ rw e (refl, refl)
      ]

  keyed :
      (key : Text) (rpc_url : Option Text) {connection : Connection}
      → connect ethers (record { rpc_url = rpc_url; private_key = some key }) ≡ ok connection
      → (key ≡ connection.private_key) × (ethers.wallet key ≡ ok connection.wallet_address)
  unfolding connect
  keyed key rpc_url e =
      let (address, e₁, e₂) =
        bind_ok (ethers.wallet key)
          (λ address.
            connect_with ethers (get_or rpc_url (codes "http://localhost:8545")) key address)
          e in
      let same = ok_inj e₂ in
      (ap (λ c. c.private_key) same, e₁ ∙ ap (λ c. ok c.wallet_address) same)

  connected :
      (o rpc_url : Option Text) {connection : Connection} (x : Exception)
      → ethers.wallet [] ≡ throw x
      → connect ethers (record { rpc_url = rpc_url; private_key = some (get_or (given o) []) })
        ≡ ok connection
      → (o ≡ some connection.private_key)
        × (ethers.wallet connection.private_key ≡ ok connection.wallet_address)
  connected none rpc_url x w e = let (k, h) = keyed [] rpc_url e in cc
  connected (some []) rpc_url x w e = let (k, h) = keyed [] rpc_url e in cc
  connected (some (c ∷ s)) rpc_url x w e =
      let (k, h) = keyed (c ∷ s) rpc_url e in (ap some k, ap ethers.wallet (sym k) ∙ h)

  -- A service that starts with the configuration of its environment signs with the private key that the
  -- environment gives, and with no other, if an empty key is refused: the key that the code falls back to
  -- is never used.
  pub connect-private_key :
      (env : Env) (connection : Connection) (x : Exception)
      → ethers.wallet [] ≡ throw x
      → connect ethers (blockchain_config env) ≡ ok connection
      → (env (codes "BLOCKCHAIN_PRIVATE_KEY") ≡ some connection.private_key)
        × (ethers.wallet connection.private_key ≡ ok connection.wallet_address)
  unfolding blockchain_config
  connect-private_key env connection x w e =
      connected (env (codes "BLOCKCHAIN_PRIVATE_KEY")) (blockchain_config env).rpc_url x w e
