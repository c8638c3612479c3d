-- ===== src/BlockImport.antt =====
-- hotstuff/consensus/src/import.rs: `HotstuffBlockImport`, which wraps the client's block import.
-- The client's own `import_block` and `check_block` are parameters.
use substrate_hot_stuff.Prelude.{ℕ, Option, none, String}
use substrate_hot_stuff.Primitives.{Hash, Bytes, External, answered, failed}
use substrate_hot_stuff.Environment.{BlockStatus, in_chain, unknown, Environment}

-- `BlockImportParams`, the fields that are read or written; `body` stands for the others.
pub record BlockImportParams : Type 0 where
  pub post_hash : Hash
  pub justifications : Option Bytes
  pub body : Bytes

-- `ImportResult`: `imported` with its auxiliary data, or another answer.
pub data ImportResult : Type 0 where
  imported : Bytes → ImportResult
  not_imported : ℕ → ImportResult

-- `ConsensusError`: made here from the text of an error, or the client's own.
pub data ImportError : Type 0 where
  client_import : String → ImportError
  of_client : String → ImportError

pub data Imported : Type 0 where
  done : ImportResult → Imported
  refused : ImportError → Imported

module _ (env : Environment) where
  -- `(&*self.inner).import_block(block)`
  abbrev pub Import : Type 0
  Import = BlockImportParams → env.client.State → External ImportResult × env.client.State

  abbrev pass_on : External ImportResult → Imported
  pass_on (answered r) = done r
  pass_on (failed e) = refused (of_client e)

  abbrev wrap : External ImportResult → Imported
  wrap (answered (imported aux)) = done (imported aux)
  wrap (answered r) = done r
  wrap (failed e) = refused (client_import e)

  import_known :
      External BlockStatus
      → Import
      → BlockImportParams
      → env.client.State
      → Imported × env.client.State
  import_known (answered in_chain) inner block s =
      let (r, s') = inner (record block { justifications = none }) s in (pass_on r, s')
  import_known (answered unknown) inner block s = let (r, s') = inner block s in (wrap r, s')
  import_known (failed e) inner block s = (refused (client_import e), s)

  unfoldable pub import_block :
      Import → BlockImportParams → env.client.State → Imported × env.client.State
  unfolding import_known
  import_block inner block s = import_known (env.client.status s block.post_hash) inner block s

  -- Of a justification: the block is finalized, and a failure is only printed.
  unfoldable pub import_justification :
      Hash → env.client.State → External (Unit {0}) × env.client.State
  import_justification hash s = let (r, s') = env.client.finalize_block s hash in (answered tt, s')
