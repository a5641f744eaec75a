-- ===== src/Chain/Networks.antt =====
-- src/config/networks.ts and src/blockchain/address-registry.ts. `Number` and the files of deployments are
-- parameters. A network is looked up under the names of the table only.
pub mod Laws
use a2a_agent_layer.Common.{
  Bool, Option, none, some, get_or, List, [], ◌∷◌, ◌++◌, if◌then◌else◌, Text, codes, text_eq,
  Outcome, ok, throw, error, ◌>>=◌,
}
use a2a_agent_layer.Config.{Env, given}

pub record NetworkProfile (Num : Type 0) : Type 0 where
  pub name : Text
  pub chain_id : Num
  pub rpc_url : Text
  pub explorer_url : Text
  pub confirmations : Num

-- An address is absent where neither the environment nor the file gives it.
pub record ContractAddresses : Type 0 where
  pub agent_registry : Option Text
  pub service_catalog : Option Text
  pub tariff_manager : Option Text

module _ {Num : Type 0} (number : Text → Num) where
  unfoldable pub prom_testnet : Env → NetworkProfile Num
  prom_testnet env = record {
    name = codes "prom-testnet";
    chain_id = number (get_or (env (codes "PROM_TESTNET_CHAIN_ID")) (codes "71234"));
    rpc_url = get_or (env (codes "PROM_TESTNET_RPC_URL")) [];
    explorer_url = get_or (env (codes "PROM_TESTNET_EXPLORER_URL")) [];
    confirmations = number (get_or (env (codes "BLOCKCHAIN_CONFIRMATIONS")) (codes "3"));
  }

  unfoldable pub active_network : Env → Outcome (NetworkProfile Num)
  unfolding prom_testnet
  active_network env =
      let key = get_or (env (codes "PROM_NETWORK")) (codes "prom-testnet") in
      if text_eq key (codes "prom-testnet")
      then ok (prom_testnet env)
      else throw (error (codes "Unknown network " ++ key))

  -- `deployment` is what the file of a network holds; without a file it holds nothing.
  abbrev pub load_addresses : (Text → Outcome ContractAddresses) → Env → Outcome ContractAddresses
  load_addresses deployment env = active_network env >>= λ net. deployment net.name >>= λ base.
      ok (record {
        agent_registry = override (env (codes "AGENT_REGISTRY_ADDRESS")) base.agent_registry;
        service_catalog = override (env (codes "SERVICE_CATALOG_ADDRESS")) base.service_catalog;
        tariff_manager = override (env (codes "TARIFF_MANAGER_ADDRESS")) base.tariff_manager;
      })
    where
      override : Option Text → Option Text → Option Text
      override variable own = elim (given variable) [ none ↦ own | some s ↦ some s ]

  abbrev pub remember :
      Outcome ContractAddresses → Outcome ContractAddresses × Option ContractAddresses
  remember (ok addresses) = (ok addresses, some addresses)
  remember (throw e) = (throw e, none)

  -- `contractAddresses`, over the variable `cache`.
  unfoldable pub contract_addresses :
      (Text → Outcome ContractAddresses)
      → Env
      → Option ContractAddresses
      → Outcome ContractAddresses × Option ContractAddresses
  unfolding active_network
  contract_addresses deployment env (some cached) = (ok cached, some cached)
  contract_addresses deployment env none = remember (load_addresses deployment env)
