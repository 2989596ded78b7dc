-- ===== src/ShareChain/Snapshot/Interleaving.antt =====
-- Loads of a cell in one thread between the writes of stores in another: `load_tip` against
-- `store_tip`, and `load_height` against `store_height`.
use sv2_p2pool.Prelude.{
  ◌≡◌, refl, sym, ap, subst, ◌∙◌, Bool, true, false, List, [], ◌∷◌, ◌++◌, Option, none, some,
}
use sv2_p2pool.ShareChain.Snapshot.{Cell, write_value, set_flag}

-- Where the storing thread and the loading thread are.
pub data Writer (A : Type 0) : Type 0 where
  rests : Writer A
  wrote : A → Writer A

pub data Loader (A : Type 0) : Type 0 where
  begins saw_flag : Loader A
  done : Option A → Loader A

-- `written` and `completed` are the values of the stores that wrote and of those that also set the
-- flag, newest first; `at_flag` is `completed` as it was when the load looked at the flag.
pub record System (A : Type 0) : Type 0 where
  pub cell : Cell A
  pub writer : Writer A
  pub loader : Loader A
  pub written : List A
  pub completed : List A
  pub at_flag : List A

abbrev pub initial : {A : Type 0} → A → System A
initial placeholder = record {
  cell = record { set = false; value = placeholder };
  writer = rests;
  loader = begins;
  written = [];
  completed = [];
  at_flag = [];
}

abbrev pub at_false : {A : Type 0} → Bool → Loader A
at_false true = saw_flag
at_false false = done none

module _ {A : Type 0} where
  -- One access to memory; a load may begin again once it is done.
  pub data Step : System A → System A → Type 0 where
    write :
        {s : System A} (value : A)
        → s.writer ≡ rests
        → Step s (record s {
          cell = write_value value s.cell;
          writer = wrote value;
          written = value ∷ s.written;
        })
    flag :
        {s : System A} (value : A)
        → s.writer ≡ wrote value
        → Step s
            (record s { cell = set_flag s.cell; writer = rests; completed = value ∷ s.completed })
    check :
        {s : System A} → Step s (record s { loader = at_false s.cell.set; at_flag = s.completed })
    read :
        {s : System A}
        → s.loader ≡ saw_flag
        → Step s (record s { loader = done (some s.cell.value) })

  pub data Reach (s : System A) : System A → Type 0 where
    here : Reach s s
    after : {t u : System A} → Reach s t → Step t u → Reach s u

  abbrev Pending : Writer A → List A → List A → Type 0
  Pending rests written completed = written ≡ completed
  Pending (wrote value) written completed = written ≡ value ∷ completed

  abbrev Newest : List A → A → Type 0
  Newest [] value = Unit
  Newest (v ∷ older) value = v ≡ value

  abbrev Flag : List A → Bool → Type 0
  Flag [] set = set ≡ false
  Flag (v ∷ older) set = set ≡ true

  -- Every value of `old` is one of `new`, at its end.
  abbrev pub Extends : List A → List A → Type 0
  Extends new old = (newer : List A) × (new ≡ newer ++ old)

  -- `value` was stored after, or is the newest of, the values `old`.
  abbrev pub IsFresh : (written : List A) (old : List A) (value : A) → Type 0
  IsFresh written old value =
      (later : List A) × (since : List A) × (written ≡ later ++ value ∷ since)
      × Extends (value ∷ since) old

  -- What a load's result says of the stores.
  abbrev pub Loaded : Loader A → (written : List A) (at_flag : List A) → Type 0
  Loaded begins written at_flag = Unit
  Loaded saw_flag written at_flag =
      Extends written at_flag × (v : A) × (older : List A) × (at_flag ≡ v ∷ older)
  Loaded (done none) written at_flag = at_flag ≡ []
  Loaded (done (some value)) written at_flag = IsFresh written at_flag value

  record Inv (s : System A) : Type 0 where
    pending : Pending s.writer s.written s.completed
    newest : Newest s.written s.cell.value
    flagged : Flag s.completed s.cell.set
    loaded : Loaded s.loader s.written s.at_flag

  initial-Inv : (placeholder : A) → Inv (initial placeholder)
  initial-Inv placeholder = record { pending = refl; newest = tt; flagged = refl; loaded = tt }

  Loaded-write :
      (loader : Loader A) (value : A) (written at_flag : List A)
      → Loaded loader written at_flag
      → Loaded loader (value ∷ written) at_flag
  Loaded-write begins value written at_flag h = tt
  Loaded-write saw_flag value written at_flag ((newer, e), v, older, cons) =
      ((value ∷ newer, ap (◌∷◌ value) e), v, older, cons)
  Loaded-write (done none) value written at_flag h = h
  Loaded-write (done (some v)) value written at_flag (later, since, e, ext) =
      (value ∷ later, since, ap (◌∷◌ value) e, ext)

  Pending-Extends :
      (w : Writer A) (written completed : List A)
      → Pending w written completed
      → Extends written completed
  Pending-Extends rests written completed e = ([], e)
  Pending-Extends (wrote value) written completed e = (value ∷ [], e)

  Loaded-check :
      (set : Bool) (written completed : List A)
      → Flag completed set
      → Extends written completed
      → Loaded (at_false set) written completed
  Loaded-check true written [] f ext = absurd cc
  Loaded-check true written (v ∷ older) f (newer, e) = ((newer, e), v, older, refl)
  Loaded-check false written [] f ext = refl
  Loaded-check false written (v ∷ older) f ext = absurd cc

  IsFresh-read :
      (written at_flag : List A) (value : A)
      → Newest written value
      → Loaded saw_flag written at_flag
      → IsFresh written at_flag value
  IsFresh-read [] at_flag value new (([], e), v, older, cons) = absurd cc
  IsFresh-read [] at_flag value new ((n ∷ newer, e), v, older, cons) = absurd cc
  IsFresh-read (w ∷ rest) at_flag value new ((newer, e), v, older, cons) =
      ([], rest, ap (λ x. x ∷ rest) new, (newer, ap (λ x. x ∷ rest) (sym new) ∙ e))

  Step-Inv : {s t : System A} → Step s t → Inv s → Inv t
  Step-Inv (write {s} value at) inv = record {
    pending = ap (◌∷◌ value) (subst (λ w. Pending w s.written s.completed) at inv.pending);
    newest = refl;
    flagged = inv.flagged;
    loaded = Loaded-write s.loader value s.written s.at_flag inv.loaded;
  }
  Step-Inv (flag {s} value at) inv = record {
    pending = subst (λ w. Pending w s.written s.completed) at inv.pending;
    newest = inv.newest;
    flagged = refl;
    loaded = inv.loaded;
  }
  Step-Inv (check {s}) inv = record {
    pending = inv.pending;
    newest = inv.newest;
    flagged = inv.flagged;
    loaded =
        Loaded-check s.cell.set s.written s.completed inv.flagged
          (Pending-Extends s.writer s.written s.completed inv.pending);
  }
  Step-Inv (read {s} at) inv = record {
    pending = inv.pending;
    newest = inv.newest;
    flagged = inv.flagged;
    loaded =
        IsFresh-read s.written s.at_flag s.cell.value inv.newest
          (subst (λ l. Loaded l s.written s.at_flag) at inv.loaded);
  }

  Reach-Inv : {s t : System A} → Inv s → Reach s t → Inv t
  Reach-Inv inv here = inv
  Reach-Inv inv (after r step) = Step-Inv step (Reach-Inv inv r)

  -- However the writes of stores and the reads of a load interleave, a load that is done returned a
  -- value that some store wrote, and none older than the last store that was complete when the load
  -- looked at the flag; it returned nothing only if no store was complete then. It never returns the
  -- placeholder as a value.
  pub Reach-Loaded :
      (placeholder : A) (s : System A)
      → Reach (initial placeholder) s
      → Loaded s.loader s.written s.at_flag
  Reach-Loaded placeholder s r = (Reach-Inv (initial-Inv placeholder) r).loaded
