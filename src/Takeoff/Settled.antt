-- ===== src/Takeoff/Settled.antt =====
-- The answers memo of src/core/takeoff_gate.py: whatever lists grow or are replaced while callers
-- scan and store, the memo serves the answers of a fresh walk.
use claude_code_manager.Base.{
  ℕ, suc, ◌+◌, ◌≤◌, ◌<◌, ◌≡◌, refl, sym, ap, ◌∙◌, Bool, true, false, Option, none, some, List, [],
  ◌∷◌, ◌++◌, String, String_eq, ℕ_eq, ◌==◌, nat_eq_iff, length, take, drop, length-append,
  length-drop, take-append-drop, take_of_le, take-append_le, is_empty, if◌then◌else◌, Bool-cases,
  inl, inr, arith, subst, All, All-map_of,
}
use claude_code_manager.Memo.{BoundedMemo, empty_memo, get, store}
use claude_code_manager.Memo.Contents.{All-empty_memo, All-get, All-store, get_of_All}
use claude_code_manager.Takeoff.{
  Event, Runtime, Entry, backward_user_answers, scan_cold, fold_suffix, settle,
  settled_user_answers,
}
use claude_code_manager.Takeoff.Walk.{combine, backward_user_answers-append}

-- A caller that has scanned and has not stored yet.
pub data Caller : Type 0 where
  idle : Caller
  scanned : String → Entry → Caller

-- `lists` are the objects by identity, of which `made` exist; `current` is each session's list.
pub record World : Type 0 where
  pub lists : ℕ → List Event
  pub made : ℕ
  pub current : String → ℕ
  pub callers : ℕ → Caller
  pub memo : BoundedMemo String Entry

abbrev pub events_of : World → String → List Event
events_of w s = w.lists (w.current s)

abbrev pub set_list : ℕ → List Event → World → World
set_list o es w = record w { lists = λ p. if p == o then es else w.lists p }

abbrev pub set_caller : ℕ → Caller → World → World
set_caller i c w = record w { callers = λ j. if j == i then c else w.callers j }

-- Every session has the empty list 0, nothing is memoized and nobody scans.
unfoldable pub start : ℕ → World
start n = record {
  lists = λ o. [];
  made = 1;
  current = λ s. 0;
  callers = λ i. idle;
  memo = empty_memo n;
}

module _ (rt : Runtime) where
  -- What a caller has to store after its scan.
  abbrev pub pending : String → Entry × Bool → Caller
  pending s r = if r.1 then scanned s r.0 else idle

  pub data Step (w : World) : World → Type 0 where
    append : (o : ℕ) (es : List Event) → o < w.made → Step w (set_list o (w.lists o ++ es) w)
    replace :
        (s : String) (es : List Event)
        → Step w (record (set_list w.made es w) {
          made = suc w.made;
          current = λ r. if r == s then w.made else w.current r;
        })
    scan :
        (i : ℕ) (s : String)
        → Step w
            (record (set_caller i
              (pending s (settle rt (get s w.memo).0 (w.current s) (events_of w s)))
              w) { memo = (get s w.memo).1 })
    finish :
        (i : ℕ) (s : String) (c : Entry)
        → w.callers i ≡ scanned s c
        → Step w (set_caller i idle (record w { memo = store s c w.memo }))

  pub data Reach (w : World) : World → Type 0 where
    here : Reach w w
    next : {u v : World} → Reach w u → Step u v → Reach w v

  -- The entry holds the answers over the part of its list that it claims.
  pub record IsPrefix (lists : ℕ → List Event) (made : ℕ) (c : Entry) : Type 0 where
    pub exists : c.object < made
    pub within : c.covered ≤ length (lists c.object)
    pub takeoff :
        c.has_takeoff ≡ (backward_user_answers rt (take c.covered (lists c.object))).has_takeoff
    pub pre :
        c.pre_takeoff_at
        ≡ (backward_user_answers rt (take c.covered (lists c.object))).pre_takeoff_at

  abbrev CallerIsPrefix : (ℕ → List Event) → ℕ → Caller → Type 0
  CallerIsPrefix lists made idle = Unit
  CallerIsPrefix lists made (scanned s c) = IsPrefix lists made c

  abbrev EntryIsPrefix : World → String × Entry → Type 0
  EntryIsPrefix w x = IsPrefix w.lists w.made x.1

  pub record IsHonest (w : World) : Type 0 where
    pub entries : All (EntryIsPrefix w) w.memo.entries
    pub scans : (i : ℕ) → CallerIsPrefix w.lists w.made (w.callers i)
    pub lists_exist : (s : String) → w.current s < w.made

  IsPrefix-append :
      (w : World) (o : ℕ) (es : List Event) (c : Entry)
      → IsPrefix w.lists w.made c
      → IsPrefix (set_list o (w.lists o ++ es) w).lists w.made c
  IsPrefix-append w o es c h = elim (Bool-cases (c.object == o)) [
    | inr other ↦ record {
      exists = h.exists;
      within = rw other h.within;
      takeoff = rw other h.takeoff;
      pre = rw other h.pre;
    }
    | inl same ↦
        let e : w.lists c.object ≡ w.lists o = ap w.lists ((nat_eq_iff c.object o).0 same) in
        let fits : c.covered ≤ length (w.lists o) = subst (λ l. c.covered ≤ length l) e h.within in
        let t : take c.covered (w.lists o ++ es) ≡ take c.covered (w.lists c.object) =
          take-append_le c.covered (w.lists o) es fits ∙ ap (take c.covered) (sym e) in
        record {
          exists = h.exists;
          within = rw same (omega (arith, fits, length-append (w.lists o) es));
          takeoff = rw same (rw t h.takeoff);
          pre = rw same (rw t h.pre);
        }
  ]

  IsPrefix-new :
      (w : World) (es : List Event) (c : Entry)
      → IsPrefix w.lists w.made c
      → IsPrefix (set_list w.made es w).lists (suc w.made) c
  IsPrefix-new w es c h =
      let other : (c.object == w.made) ≡ false = ground (arith, h.exists) in
      record {
        exists = omega (arith, h.exists);
        within = rw other h.within;
        takeoff = rw other h.takeoff;
        pre = rw other h.pre;
      }

  scan_cold-IsPrefix :
      (w : World) (o : ℕ) → o < w.made → IsPrefix w.lists w.made (scan_cold rt o (w.lists o))
  unfolding scan_cold
  scan_cold-IsPrefix w o h =
      let whole : take (length (w.lists o)) (w.lists o) ≡ w.lists o =
        take_of_le (length (w.lists o)) (w.lists o) (omega arith) in
      record { exists = h; within = omega arith; takeoff = rw whole; pre = rw whole }

  -- The answers over the covered part and over the suffix make those over the whole list.
  split_answers :
      (lists : ℕ → List Event) (c : Entry)
      → backward_user_answers rt (lists c.object)
        ≡ combine
            (backward_user_answers rt (take c.covered (lists c.object)))
            (backward_user_answers rt (drop c.covered (lists c.object)))
  split_answers lists c =
      ap (backward_user_answers rt) (sym (take-append-drop c.covered (lists c.object)))
      ∙ backward_user_answers-append rt (take c.covered (lists c.object))
          (drop c.covered (lists c.object))

  fold_suffix-IsPrefix :
      (lists : ℕ → List Event) (made : ℕ) (c : Entry)
      → IsPrefix lists made c
      → IsPrefix lists made (fold_suffix rt c (drop c.covered (lists c.object)))
  unfolding fold_suffix
  fold_suffix-IsPrefix lists made c h =
      let l = lists c.object in
      let e : c.covered + length (drop c.covered l) ≡ length l =
        omega (arith, length-drop c.covered l, h.within) in
      let whole : take (c.covered + length (drop c.covered l)) l ≡ l =
        take_of_le _ l (omega (arith, e)) in
      record {
        exists = h.exists;
        within = omega (arith, e);
        takeoff = rw whole (rw (split_answers lists c) (rw (h.takeoff)));
        pre = rw whole (rw (split_answers lists c) (rw (h.pre)));
      }

  -- The entry covers all of the list `o`.
  record IsWhole (lists : ℕ → List Event) (made o : ℕ) (c : Entry) : Type 0 where
    prefix : IsPrefix lists made c
    same : c.object ≡ o
    full : c.covered ≡ length (lists o)

  empty_drop :
      {A : Type 0} (n : ℕ) (l : List A) → n ≤ length l → is_empty (drop n l) ≡ true → n ≡ length l
  empty_drop {A} n l h q = omega (arith, length-drop n l, no_length (drop n l) q)
    where
      no_length : (xs : List A) → is_empty xs ≡ true → length xs ≡ 0
      no_length [] e = refl
      no_length (x ∷ xs) e = cc

  scan_cold-IsWhole :
      (w : World) (o : ℕ) → o < w.made → IsWhole w.lists w.made o (scan_cold rt o (w.lists o))
  scan_cold-IsWhole w o h = record {
    prefix = scan_cold-IsPrefix w o h;
    same = unfold scan_cold in refl;
    full = unfold scan_cold in refl;
  }

  -- A hit on the same list folds the suffix that was appended since.
  settle_hit :
      (lists : ℕ → List Event) (made : ℕ) (c : Entry)
      → IsPrefix lists made c
      → IsWhole lists made c.object (settle rt (some c) c.object (lists c.object)).0
  unfolding settle
  settle_hit lists made c h = elim (Bool-cases (is_empty (drop c.covered (lists c.object)))) [
    | inl nothing ↦ rw ((nat_eq_iff c.object c.object).1 refl) (
        rw nothing (record {
          prefix = h;
          same = refl;
          full = empty_drop c.covered (lists c.object) h.within nothing;
        }))
    | inr more ↦ rw ((nat_eq_iff c.object c.object).1 refl) (
        rw more (record {
          prefix = fold_suffix-IsPrefix lists made c h;
          same = unfold fold_suffix in refl;
          full =
              unfold fold_suffix in omega (arith, length-drop c.covered (lists c.object), h.within);
        }))
  ]

  settle-IsWhole :
      (w : World) (o : ℕ) (cached : Option Entry)
      → o < w.made
      → ((c : Entry) → cached ≡ some c → IsPrefix w.lists w.made c)
      → IsWhole w.lists w.made o (settle rt cached o (w.lists o)).0
  settle-IsWhole w o none h valid = unfold settle in scan_cold-IsWhole w o h
  settle-IsWhole w o (some c) h valid = elim (Bool-cases (c.object == o)) [
    | inl same ↦
        subst (λ p. IsWhole w.lists w.made p (settle rt (some c) p (w.lists p)).0)
          ((nat_eq_iff c.object o).0 same) (settle_hit w.lists w.made c (valid c refl))
    | inr other ↦ unfold settle in rw other (scan_cold-IsWhole w o h)
  ]

  scanned-IsWhole :
      (w : World) (s : String)
      → IsHonest w
      → IsWhole w.lists w.made
          (w.current s)
          (settle rt (get s w.memo).0 (w.current s) (events_of w s)).0
  scanned-IsWhole w s h =
      settle-IsWhole w (w.current s) (get s w.memo).0 (h.lists_exist s)
        (λ c. get_of_All (EntryIsPrefix w) s c w.memo h.entries)

  caller-map :
      (lists more : ℕ → List Event) (made made' : ℕ) (r : Caller)
      → ((c : Entry) → IsPrefix lists made c → IsPrefix more made' c)
      → CallerIsPrefix lists made r
      → CallerIsPrefix more made' r
  caller-map lists more made made' idle f h = tt
  caller-map lists more made made' (scanned s c) f h = f c h

  set_caller-IsPrefix :
      (w : World) (i : ℕ) (r : Caller)
      → CallerIsPrefix w.lists w.made r
      → ((j : ℕ) → CallerIsPrefix w.lists w.made (w.callers j))
      → (j : ℕ) → CallerIsPrefix w.lists w.made ((set_caller i r w).callers j)
  set_caller-IsPrefix w i r new old j = elim (Bool-cases (j == i)) [
    | inl same ↦ rw same new
    | inr other ↦ rw other (old j)
  ]

  pending-IsPrefix :
      (w : World) (s : String) (r : Entry × Bool)
      → IsPrefix w.lists w.made r.0
      → CallerIsPrefix w.lists w.made (pending s r)
  pending-IsPrefix w s (c, true) h = h
  pending-IsPrefix w s (c, false) h = tt

  Step-IsHonest : {w u : World} → Step w u → IsHonest w → IsHonest u
  Step-IsHonest {w} (append o es made) h = record {
    entries = All-map_of _ _ w.memo.entries (λ x. IsPrefix-append w o es x.1) h.entries;
    scans = λ i. caller-map w.lists _ w.made _ (w.callers i) (IsPrefix-append w o es) (h.scans i);
    lists_exist = h.lists_exist;
  }
  Step-IsHonest {w} (replace s es) h = record {
    entries = All-map_of _ _ w.memo.entries (λ x. IsPrefix-new w es x.1) h.entries;
    scans = λ i. caller-map w.lists _ w.made _ (w.callers i) (IsPrefix-new w es) (h.scans i);
    lists_exist = λ r. ground (arith, h.lists_exist r);
  }
  Step-IsHonest {w} (scan i s) h = record {
    entries = All-get (EntryIsPrefix w) s w.memo h.entries;
    scans =
        set_caller-IsPrefix w i _ (pending-IsPrefix w s _ (scanned-IsWhole w s h).prefix) h.scans;
    lists_exist = h.lists_exist;
  }
  Step-IsHonest {w} (finish i s c now) h = record {
    entries =
        All-store (EntryIsPrefix w) s c w.memo
          (subst (CallerIsPrefix w.lists w.made) now (h.scans i)) h.entries;
    scans = set_caller-IsPrefix w i idle tt h.scans;
    lists_exist = h.lists_exist;
  }

  pub Reach-IsHonest : {w u : World} → IsHonest w → Reach w u → IsHonest u
  Reach-IsHonest h here = h
  Reach-IsHonest h (next r s) = Step-IsHonest s (Reach-IsHonest h r)

  pub start-IsHonest : (n : ℕ) → IsHonest (start n)
  unfolding start
  start-IsHonest n = record {
    entries = All-empty_memo (EntryIsPrefix (start n)) n;
    scans = λ i. tt;
    lists_exist = λ s. omega arith;
  }

  -- The two answers that the gate reads for a session.
  abbrev pub answers_of : World → String → Bool × Option ℕ
  answers_of w s =
      let c = (settled_user_answers rt s (w.current s) (events_of w s) w.memo).0 in
      (c.has_takeoff, c.pre_takeoff_at)

  pub answers_of_honest :
      (w : World) (s : String)
      → IsHonest w
      → (answers_of w s).0 ≡ (backward_user_answers rt (events_of w s)).has_takeoff
        × ((answers_of w s).1 ≡ (backward_user_answers rt (events_of w s)).pre_takeoff_at)
  unfolding settled_user_answers
  answers_of_honest w s h =
      let whole = scanned-IsWhole w s h in
      let c : Entry = (settle rt (get s w.memo).0 (w.current s) (events_of w s)).0 in
      let all : take c.covered (w.lists c.object) ≡ events_of w s =
        rw (whole.full, whole.same)
          (take_of_le (length (events_of w s)) (events_of w s) (omega arith)) in
      (rw (whole.prefix.takeoff, all), rw (whole.prefix.pre, all))
