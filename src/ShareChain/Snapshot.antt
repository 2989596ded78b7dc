-- ===== src/ShareChain/Snapshot.antt =====
-- `AtomicTipSnapshot` of share_chain.rs: the last tip and height that the actor saw, for readers in
-- other threads. The fields are two cells of a flag and a value: `tip_set` and `tip`, `height_set`
-- and `height`.
pub mod Interleaving
use sv2_p2pool.Prelude.{ℕ, Bool, true, false, Option, none, some, if◌then◌else◌}
use sv2_p2pool.Bitcoin.{Hash, all_zeros}

pub record Cell (A : Type 0) : Type 0 where
  pub set : Bool
  pub value : A

pub record AtomicTipSnapshot : Type 0 where
  pub tip : Cell Hash
  pub height : Cell ℕ

abbrev pub empty : AtomicTipSnapshot
empty = record {
  tip = record { set = false; value = all_zeros };
  height = record { set = false; value = 0 };
}

-- A load of the flag, then of the value.
abbrev pub load : {A : Type 0} → Cell A → Option A
load cell = if cell.set then some cell.value else none

-- The two writes of a store, in the source's order.
abbrev pub write_value : {A : Type 0} → A → Cell A → Cell A
write_value value cell = record cell { value = value }

abbrev pub set_flag : {A : Type 0} → Cell A → Cell A
set_flag cell = record cell { set = true }

unfoldable pub load_tip : AtomicTipSnapshot → Option Hash
load_tip s = load s.tip

unfoldable pub load_height : AtomicTipSnapshot → Option ℕ
load_height s = load s.height

unfoldable pub store_tip : Hash → AtomicTipSnapshot → AtomicTipSnapshot
store_tip tip s = record s { tip = set_flag (write_value tip s.tip) }

unfoldable pub store_height : ℕ → AtomicTipSnapshot → AtomicTipSnapshot
store_height height s = record s { height = set_flag (write_value height s.height) }
