-- ===== src/Isolation/Store/State.antt =====
-- What lease_store.py keeps on disk, and what other processes may hold meanwhile.
use chaos_atlas.Prelude.{String, Bool, Option, List}
use chaos_atlas.Value.{Value}

-- A file as `json.loads` finds it; the key order that the writer sorts is not kept.
pub data File : Type 0 where
  damaged : File
  json : Value → File

pub record Disk : Type 0 where
  pub leases : List (String × File)  -- leases/<lease_id>.json
  pub audits : List (String × Value)  -- audits/<lease_id>/<name>.json
  pub claim : Option File  -- coordination_root/active-l3.json
  pub creates : String → Bool  -- whether a lease's file can be created where none is
  pub writes : String → Value → Bool  -- whether a value can be written under a path
  pub resolve : String → String  -- `Path.resolve`
  pub creation_held : Bool  -- another process holds the creation lock
  pub held : List String  -- leases whose operation lock another process holds
