-- ===== src/Orchestration/Json.antt =====
-- serde_json's `Value`, which the orchestration crate stores and hashes. A number stands for the
-- text that its `Display` writes, an object for its entries in the map's iteration order.
pub mod Order
pub mod Sorted
use pi_musubi_core.Prelude.{String, Bool}

mutual
  pub data Value : Type 0 where
    null : Value
    bool : Bool → Value
    number : String → Value
    string : String → Value
    array : Values → Value
    object : Entries → Value

  pub data Values : Type 0 where
    nil : Values
    cons : Value → Values → Values

  pub data Entries : Type 0 where
    end : Entries
    entry : String → Value → Entries → Entries
