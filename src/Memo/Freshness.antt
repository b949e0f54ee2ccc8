-- ===== src/Memo/Freshness.antt =====
-- The contract of `StatSignatureMemo` (src/core/memo.py), with the readers that use it and writers
-- that run between a reader's steps: a reader takes the stat, reads and parses the file, and
-- records the value under the stat that it took first.
use claude_code_manager.Base.{
  ℕ, ◌≡◌, ◌≢◌, refl, sym, ◌∙◌, Option, none, some, List, [], ◌∷◌, if◌then◌else◌, Eq, ◌==◌, ℕ_eq,
  Bool-cases, ◌⊎◌, arith, inl, inr, subst, All, All-map_of,
}
use claude_code_manager.Memo.{BoundedMemo, empty_memo, get, Stat, fresh, fresh_value, save}
use claude_code_manager.Memo.Contents.{All-empty_memo, All-get, All-store, get_of_All}

-- A file: what `stat` returns, and the bytes.
pub record File (B : Type 0) : Type 0 where
  pub stat : Stat
  pub bytes : B

-- Where one reader stands.
pub data Reader (K S : Type 0) : Type 0 where
  idle : Reader K S
  statted : K → Stat → Reader K S
  parsed : K → Stat → S → Reader K S

-- What the memo compares.
abbrev pub signature : Stat → ℕ × ℕ
signature st = (st.st_mtime_ns, st.st_size)

-- `had` are the signatures that each file has had, with the one that it has.
pub record World (K B S : Type 0) : Type 0 where
  pub file : K → File B
  pub had : K → List (ℕ × ℕ)
  pub readers : ℕ → Reader K S
  pub memo : BoundedMemo K (ℕ × ℕ × S)

module _ {K B S : Type 0} ⦃e : Eq K⦄ where
  abbrev pub set_file : K → File B → World K B S → World K B S
  set_file k f w = record w {
    file = λ j. if j == k then f else w.file j;
    had = λ j. if j == k then signature f.stat ∷ w.had j else w.had j;
  }

  abbrev pub set_reader : ℕ → Reader K S → World K B S → World K B S
  set_reader i r w = record w { readers = λ j. if j == i then r else w.readers j }

  -- A world in which nothing is memoized and nobody reads.
  unfoldable pub start : (K → File B) → ℕ → World K B S
  start file n = record {
    file = file;
    had = λ k. signature (file k).stat ∷ [];
    readers = λ i. idle;
    memo = empty_memo n;
  }

-- A signature is among others.
abbrev pub IsHad : ℕ × ℕ → List (ℕ × ℕ) → Type 0
IsHad s [] = ⊥
IsHad s (x ∷ had) = (x ≡ s) ⊎ IsHad s had

abbrev pub IsNew : ℕ × ℕ → List (ℕ × ℕ) → Type 0
IsNew s = All λ x. x ≢ s

IsHad-IsNew : (s t : ℕ × ℕ) (had : List (ℕ × ℕ)) → IsHad s had → IsNew t had → s ≢ t
IsHad-IsNew s t [] h new q = h
IsHad-IsNew s t (x ∷ had) (inl same) new q = new.0 (same ∙ q)
IsHad-IsNew s t (x ∷ had) (inr rest) new q = IsHad-IsNew s t had rest new.1 q

-- A value tied to a signature that the file has had is the parse of the file while that stands.
pub record IsCurrent {B S : Type 0} (parse : B → S) (f : File B) (had : List (ℕ × ℕ)) (s : ℕ × ℕ)
    (v : S) : Type 0 where
  pub past : IsHad s had
  pub parses : s ≡ signature f.stat → v ≡ parse f.bytes

-- A value that is served stands in an entry with the time of the stat.
fresh_value-eq :
    {S : Type 0} (o : Option (ℕ × ℕ × S)) (st : Stat) (v : S)
    → fresh_value o st ≡ some v
    → (entry : ℕ × ℕ × S) × (o ≡ some entry)
      × (◌≡◌ {A = ℕ × ℕ} (entry.0, entry.1) (signature st))
      × (entry.2 ≡ v)
unfolding fresh_value
fresh_value-eq none st v q = cc
fresh_value-eq (some entry) st v q = (entry, refl, ground arith, ground arith)

module _ {K B S : Type 0} ⦃e : Eq K⦄ (parse : B → S) where
  -- Every write gives its file a signature that the file has not had: another time, or, within one
  -- tick of the clock, another size.
  pub data Step (w : World K B S) : World K B S → Type 0 where
    write : (k : K) (f : File B) → IsNew (signature f.stat) (w.had k) → Step w (set_file k f w)
    take_stat : (i : ℕ) (k : K) → Step w (set_reader i (statted k (w.file k).stat) w)
    read_file :
        (i : ℕ) (k : K) (st : Stat)
        → w.readers i ≡ statted k st
        → Step w (set_reader i (parsed k st (parse (w.file k).bytes)) w)
    record_value :
        (i : ℕ) (k : K) (st : Stat) (v : S)
        → w.readers i ≡ parsed k st v
        → Step w (set_reader i idle (record w { memo = save k st v w.memo }))
    look_up : (k : K) (st : Stat) → Step w (record w { memo = (fresh k st w.memo).1 })

  pub data Reach (w : World K B S) : World K B S → Type 0 where
    here : Reach w w
    next : {u v : World K B S} → Reach w u → Step u v → Reach w v

  abbrev EntryIsCurrent : World K B S → K × (ℕ × ℕ × S) → Type 0
  EntryIsCurrent w x = IsCurrent parse (w.file x.0) (w.had x.0) (x.1.0, x.1.1) x.1.2

  abbrev ReaderIsCurrent : World K B S → Reader K S → Type 0
  ReaderIsCurrent w idle = Unit
  ReaderIsCurrent w (statted k st) = IsHad (signature st) (w.had k)
  ReaderIsCurrent w (parsed k st v) = IsCurrent parse (w.file k) (w.had k) (signature st) v

  pub record IsHonest (w : World K B S) : Type 0 where
    pub entries : All (EntryIsCurrent w) w.memo.entries
    pub reading : (i : ℕ) → ReaderIsCurrent w (w.readers i)
    pub present : (k : K) → IsHad (signature (w.file k).stat) (w.had k)

  -- A write makes every earlier value stale, and no value wrong.
  IsCurrent-write :
      (w : World K B S) (k j : K) (f : File B) (s : ℕ × ℕ) (v : S)
      → IsNew (signature f.stat) (w.had k)
      → IsCurrent parse (w.file j) (w.had j) s v
      → IsCurrent parse ((set_file k f w).file j) ((set_file k f w).had j) s v
  IsCurrent-write w k j f s v new h = elim (Bool-cases (j == k)) [
    | inl same ↦
        let here : IsNew (signature f.stat) (w.had j) =
          subst (λ i. IsNew (signature f.stat) (w.had i)) (sym ((e.beq_iff j k).0 same)) new in
        rw same (record {
          past = inr h.past;
          parses = λ q. absurd (IsHad-IsNew s (signature f.stat) (w.had j) h.past here q);
        })
    | inr other ↦ rw other h
  ]

  reader-write :
      (w : World K B S) (k : K) (f : File B) (r : Reader K S)
      → IsNew (signature f.stat) (w.had k)
      → ReaderIsCurrent w r
      → ReaderIsCurrent (set_file k f w) r
  reader-write w k f idle new h = tt
  reader-write w k f (statted j st) new h = elim (Bool-cases (j == k)) [
    | inl same ↦ rw same (inr h)
    | inr other ↦ rw other h
  ]
  reader-write w k f (parsed j st v) new h = IsCurrent-write w k j f (signature st) v new h

  present-write :
      (w : World K B S) (k j : K) (f : File B)
      → IsHad (signature (w.file j).stat) (w.had j)
      → IsHad (signature ((set_file k f w).file j).stat) ((set_file k f w).had j)
  present-write w k j f h = elim (Bool-cases (j == k)) [
    | inl same ↦ rw same (inl refl)
    | inr other ↦ rw other h
  ]

  set_reader-current :
      (w : World K B S) (i : ℕ) (r : Reader K S)
      → ReaderIsCurrent w r
      → ((j : ℕ) → ReaderIsCurrent w (w.readers j))
      → (j : ℕ) → ReaderIsCurrent w ((set_reader i r w).readers j)
  set_reader-current w i r new old j = elim (Bool-cases (j == i)) [
    | inl same ↦ rw same new
    | inr other ↦ rw other (old j)
  ]

  Step-IsHonest : {w u : World K B S} → Step w u → IsHonest w → IsHonest u
  Step-IsHonest {w} (write k f new) h = record {
    entries =
        All-map_of _ _ w.memo.entries
          (λ x current. IsCurrent-write w k x.0 f (x.1.0, x.1.1) x.1.2 new current) h.entries;
    reading = λ i. reader-write w k f (w.readers i) new (h.reading i);
    present = λ j. present-write w k j f (h.present j);
  }
  Step-IsHonest {w} (take_stat i k) h = record {
    entries = h.entries;
    reading = set_reader-current w i (statted k (w.file k).stat) (h.present k) h.reading;
    present = h.present;
  }
  Step-IsHonest {w} (read_file i k st now) h =
      let before : IsHad (signature st) (w.had k) = subst (ReaderIsCurrent w) now (h.reading i) in
      record {
        entries = h.entries;
        reading =
            set_reader-current w i (parsed k st (parse (w.file k).bytes))
              (record { past = before; parses = λ q. refl }) h.reading;
        present = h.present;
      }
  Step-IsHonest {w} (record_value i k st v now) h = record {
    entries =
        unfold save in
        All-store (EntryIsCurrent w) k (st.st_mtime_ns, st.st_size, v) w.memo
          (subst (ReaderIsCurrent w) now (h.reading i)) h.entries;
    reading = set_reader-current w i idle tt h.reading;
    present = h.present;
  }
  Step-IsHonest {w} (look_up k st) h = record {
    entries = unfold fresh in All-get (EntryIsCurrent w) k w.memo h.entries;
    reading = h.reading;
    present = h.present;
  }

  Reach-IsHonest : {w u : World K B S} → IsHonest w → Reach w u → IsHonest u
  Reach-IsHonest h here = h
  Reach-IsHonest h (next r s) = Step-IsHonest s (Reach-IsHonest h r)

  -- Whatever readers and writers do, in whatever order, where each write gives its file a signature
  -- that the file has not had before, be it only by its size: a value that `fresh` serves for the
  -- stat of a file as it is now is the parse of the bytes that the file holds now, also where a write
  -- fell between a reader's stat and its read.
  pub fresh-current :
      (file : K → File B) (n : ℕ) (w : World K B S) (k : K) (v : S)
      → Reach (start file n) w
      → (fresh k (w.file k).stat w.memo).0 ≡ some v
      → v ≡ parse (w.file k).bytes
  unfolding start fresh
  fresh-current file n w k v r q =
      let honest =
        Reach-IsHonest
          (record {
            entries = All-empty_memo (EntryIsCurrent (start file n)) n;
            reading = λ i. tt;
            present = λ k. inl refl;
          })
          r in
      let (entry, found, same, value) = fresh_value-eq (get k w.memo).0 (w.file k).stat v q in
      let current : IsCurrent parse (w.file k) (w.had k) (entry.0, entry.1) entry.2 =
        get_of_All (EntryIsCurrent w) k entry w.memo honest.entries found in
      subst (λ x. x ≡ parse (w.file k).bytes) value (current.parses same)
