-- ===== src/Store/Valid.antt =====
-- A merge of rows that were constructed never raises, and gives back rows that can be constructed:
-- the conditions that the merge keeps on its entries.
pub mod Sides
pub mod Ranks
pub mod Total
use Prim.Native.String.{String}
use ro_beats_calculator_engi.Common.{
  ℕ, ◌≡◌, Bool, true, false, not, ◌&&◌, Option, none, some, Result, ok, length, ◌==◌, All, List,
}
use ro_beats_calculator_engi.Store.Records.{
  MetaResult, FgResult, Loadout, bad_result, bad_song, is_none, make_loadout, surface_size,
}
use ro_beats_calculator_engi.Store.Boards.{Row, Work}

-- A result as its constructor lets it through.
abbrev pub MetaOk : MetaResult → Type 0
MetaOk r = bad_result r.element r.gems r.stats ≡ false

pub record FgOk (r : FgResult) : Type 0 where
  pub result : bad_result r.element r.gems r.stats ≡ false
  pub surface : (length r.surface == surface_size) ≡ true

abbrev pub IfSome {ℓ κ} : {A : Type ℓ} → (A → Type κ) → Option A → Type κ
IfSome P none = Unit
IfSome P (some a) = P a

-- A loadout that was constructed, with results that were.
pub record IsLoadout (x : Loadout) : Type 0 where
  pub made : make_loadout x ≡ ok x
  pub meta_ok : IfSome MetaOk x.meta
  pub fg_ok : IfSome FgOk x.fg

-- An entry of the merge under its key.
pub record IsWork (e : String × Work) : Type 0 where
  pub hash : e.1.source.loadout_hash ≡ e.0
  pub song : bad_song e.1.source ≡ false
  pub meta_ok : IfSome MetaOk e.1.meta
  pub fg_ok : IfSome FgOk e.1.fg
  pub scored : (not (is_none e.1.meta) && is_none e.1.score) ≡ false
  pub paired : (not (is_none e.1.fg) && is_none e.1.paired) ≡ false
  pub fg_scored : (not (is_none e.1.fg) && is_none e.1.fg_score) ≡ false
