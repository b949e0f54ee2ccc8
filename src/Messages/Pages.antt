-- ===== src/Messages/Pages.antt =====
-- src/core/message_projection.py: the pages of a projection, aligned to turns.
use claude_code_manager.Base.{
  ℕ, zero, suc, ◌+◌, ◌-◌, ◌≤◌, ◌<◌, ◌≡◌, refl, ap, sym, ◌∙◌, true, false, Option, none, some, List,
  [], ◌∷◌, ◌++◌, if◌then◌else◌, ltb, length, take, drop, take-append-drop, take_of_le, get_elem?,
  min, arith, All, Bool-cases, ◌⊎◌, inl, inr, le_cases, ltb→lt, ltb_false→le,
}
use claude_code_manager.Messages.Aggregator.{Message}
use claude_code_manager.Messages.Projection.{
  Projection, is_separator, separators_from, last_below, snap_to_turn_start, tail, slice_before,
}

abbrev pub NoSeparator : List Message → Type 0
NoSeparator = All λ m. is_separator m ≡ false

abbrev pub HasSeparatorAt : List Message → ℕ → Type 0
HasSeparatorAt ms i = (m : Message) × (get_elem? ms i ≡ some m) × (is_separator m ≡ true)

-- What the search finds among the separators of `ms`, whose first message has the ordinal `n`: none
-- below `desired`, or the last one.
FoundIn : ℕ → List Message → ℕ → Option ℕ → Option ℕ → Type 0
FoundIn n ms desired found result =
    ((result ≡ found) × NoSeparator (take (desired - n) ms))
    ⊎ ((i : ℕ) × (result ≡ some (n + i))
        × (n + i < desired)
        × HasSeparatorAt ms i
        × NoSeparator (take (desired - n - suc i) (drop (suc i) ms)))

nothing_taken : (k : ℕ) → NoSeparator (take k [])
nothing_taken zero = tt
nothing_taken (suc k) = tt

take_none : (k : ℕ) (ms : List Message) → k ≡ 0 → NoSeparator (take k ms)
take_none k ms h = rw h tt

take_more :
    (k j : ℕ) (m : Message) (ms : List Message)
    → k ≡ suc j
    → is_separator m ≡ false
    → NoSeparator (take j ms)
    → NoSeparator (take k (m ∷ ms))
take_more k j m ms h e rest = rw h (e, rest)

FoundIn-stop :
    (n : ℕ) (ms : List Message) (desired : ℕ) (found : Option ℕ)
    → desired ≤ n
    → FoundIn n ms desired found found
unfolding FoundIn
FoundIn-stop n ms desired found h = inl (refl, take_none (desired - n) ms (omega (arith, h)))

FoundIn-skip :
    (n : ℕ) (m : Message) (ms : List Message) (desired : ℕ) (found r : Option ℕ)
    → is_separator m ≡ false
    → FoundIn (suc n) ms desired found r
    → FoundIn n (m ∷ ms) desired found r
unfolding FoundIn
FoundIn-skip n m ms desired found r p (inl (e, clear)) = inl (e, skipped)
  where
    skipped : NoSeparator (take (desired - n) (m ∷ ms))
    skipped = elim (Bool-cases (ltb n desired)) [
      | inl lt ↦
          take_more (desired - n) (desired - suc n) m ms (omega (arith, ltb→lt n desired lt)) p
            clear
      | inr ge ↦ take_none (desired - n) (m ∷ ms) (omega (arith, ltb_false→le n desired ge))
    ]
FoundIn-skip n m ms desired found r p (inr (i, e, below, at, clear)) =
    inr (suc i, e ∙ ap some (omega arith), omega (arith, below), at, same (omega arith) clear)
  where
    same :
        {j k : ℕ}
        → j ≡ k
        → NoSeparator (take j (drop (suc i) ms))
        → NoSeparator (take k (drop (suc i) ms))
    same h c = rw (sym h) c

FoundIn-hit :
    (n : ℕ) (m : Message) (ms : List Message) (desired : ℕ) (found r : Option ℕ)
    → is_separator m ≡ true
    → n < desired
    → FoundIn (suc n) ms desired (some n) r
    → FoundIn n (m ∷ ms) desired found r
unfolding FoundIn
FoundIn-hit n m ms desired found r p lt (inl (e, clear)) =
    inr (0, e ∙ ap some (omega arith), omega (arith, lt), (m, refl, p), same (omega arith) clear)
  where
    same : {j k : ℕ} → j ≡ k → NoSeparator (take j ms) → NoSeparator (take k ms)
    same h c = rw (sym h) c
FoundIn-hit n m ms desired found r p lt (inr (i, e, below, at, clear)) =
    inr (suc i, e ∙ ap some (omega arith), omega (arith, below), at, same (omega arith) clear)
  where
    same :
        {j k : ℕ}
        → j ≡ k
        → NoSeparator (take j (drop (suc i) ms))
        → NoSeparator (take k (drop (suc i) ms))
    same h c = rw (sym h) c

last_below-FoundIn :
    (n : ℕ) (ms : List Message) (desired : ℕ) (found : Option ℕ)
    → FoundIn n ms desired found (last_below desired found (separators_from n ms))
unfolding separators_from FoundIn
last_below-FoundIn n [] desired found = inl (refl, nothing_taken (desired - n))
last_below-FoundIn n (m ∷ ms) desired found = elim (Bool-cases (is_separator m)) [
  | inl p ↦ elim (Bool-cases (ltb n desired)) [
    | inl lt ↦
        rw (p, lt)
          (FoundIn-hit n m ms desired found _ p (ltb→lt n desired lt)
            (last_below-FoundIn (suc n) ms desired (some n)))
    | inr ge ↦ rw (p, ge) (FoundIn-stop n (m ∷ ms) desired found (ltb_false→le n desired ge))
  ]
  | inr p ↦
      rw p (FoundIn-skip n m ms desired found _ p (last_below-FoundIn (suc n) ms desired found))
]

-- A start of a turn at most at `desired`, with no separator from there up to it.
abbrev pub IsTurnStart : List Message → ℕ → Type 0
IsTurnStart ms start = (start ≡ 0) ⊎ ((i : ℕ) × (start ≡ suc i) × HasSeparatorAt ms i)

abbrev pub IsAligned : List Message → ℕ → ℕ → Type 0
IsAligned ms desired start =
    (start ≤ desired) × IsTurnStart ms start × NoSeparator (take (desired - start) (drop start ms))

snap-IsAligned :
    (ms : List Message) (desired : ℕ)
    → IsAligned ms desired (snap_to_turn_start (separators_from 0 ms) desired)
unfolding snap_to_turn_start FoundIn
snap-IsAligned ms desired = elim (last_below-FoundIn 0 ms desired none) [
  | inl (e, clear) ↦ rw e (omega arith, inl refl, clear)
  | inr (i, e, below, at, clear) ↦
      let e' : last_below desired none (separators_from 0 ms) ≡ some i =
        e ∙ ap some (omega arith) in
      let gap : desired - 0 - suc i ≡ desired - suc i = omega arith in
      rw e' (omega (arith, below), inr (i, refl, at), rw gap at clear)
]

-- Its separator ordinals are the positions of its separators.
abbrev pub IsIndexed : Projection → Type 0
IsIndexed p = p.separator_ordinals ≡ separators_from 0 p.committed

take-min : {A : Type 0} (k : ℕ) (xs : List A) → take (min k (length xs)) xs ≡ take k xs
take-min k xs = elim (le_cases k (length xs)) [
  | inl h ↦ let e : min k (length xs) ≡ k = omega (arith, h) in rw e refl
  | inr h ↦
      let e : min k (length xs) ≡ length xs = omega (arith, h) in
      rw e (take_of_le (length xs) xs (omega arith) ∙ sym (take_of_le k xs (omega (arith, h))))
]

take-take_le : {A : Type 0} (a b : ℕ) (xs : List A) → a ≤ b → take a (take b xs) ≡ take a xs
take-take_le zero b xs h = refl
take-take_le (suc a) zero xs h = absurd (omega arith)
take-take_le (suc a) (suc b) [] h = refl
take-take_le (suc a) (suc b) (x ∷ xs) h = ap (◌∷◌ x) (take-take_le a b xs (omega arith))

fills :
    {A : Type 0} (start b : ℕ) (xs : List A)
    → start ≤ b
    → take start xs ++ drop start (take b xs) ≡ take b xs
fills start b xs h =
    ap (λ z. z ++ drop start (take b xs)) (sym (take-take_le start b xs h))
    ∙ take-append-drop start (take b xs)

-- The page of an ordinal begins with a turn or with the history, as late as the limit allows, and
-- it closes the gap from there to the ordinal: with the messages before its start, it is all of the
-- messages below the ordinal.
pub slice_before-IsAligned :
    (p : Projection) (at limit : ℕ)
    → IsIndexed p
    → let page = slice_before at limit p in
      IsAligned p.committed (min at (length p.committed) - limit) page.start
      × (take page.start p.committed ++ page.messages ≡ take at p.committed)
unfolding slice_before
slice_before-IsAligned p at limit h =
    let before = min at (length p.committed) in
    let aligned = snap-IsAligned p.committed (before - limit) in
    rw h (
      aligned,
      fills (snap_to_turn_start (separators_from 0 p.committed) (before - limit)) before p.committed
            (omega (arith, aligned.0))
          ∙ take-min at p.committed,
    )

-- The page of the end is the page of an ordinal behind the last message.
tail-slice_before :
    (p : Projection) (limit : ℕ) → tail limit p ≡ slice_before (length p.committed) limit p
unfolding tail slice_before
tail-slice_before p limit =
    let e : min (length p.committed) (length p.committed) ≡ length p.committed = omega arith in
    rw (e, take_of_le (length p.committed) p.committed (omega arith)) refl

-- A reader that asks for one page after the other, from the end.
unfoldable pub pages_before : ℕ → ℕ → ℕ → Projection → List Message
pages_before zero at limit p = []
pages_before (suc fuel) at limit p =
    let page = slice_before at limit p in
    let older = pages_before fuel page.start limit p in
    (if page.has_more then older else []) ++ page.messages

abbrev pub all_pages : ℕ → Projection → List Message
all_pages limit p =
    let page = tail limit p in
    (if page.has_more then pages_before (length p.committed) page.start limit p else [])
    ++ page.messages

nothing_below : (ms : List Message) (at : ℕ) → min at (length ms) ≤ 0 → take at ms ≡ []
nothing_below ms at h =
    let e : min at (length ms) ≡ 0 = omega (arith, h) in sym (take-min at ms) ∙ rw e refl

pages_before-eq :
    (fuel at limit : ℕ) (p : Projection)
    → IsIndexed p
    → 0 < limit
    → min at (length p.committed) ≤ fuel
    → pages_before fuel at limit p ≡ take at p.committed
unfolding pages_before slice_before
pages_before-eq zero at limit p h l enough = sym (nothing_below p.committed at enough)
pages_before-eq (suc fuel) at limit p h l enough =
    let page = slice_before at limit p in
    let (aligned, filled) = slice_before-IsAligned p at limit h in
    let older = pages_before-eq fuel page.start limit p h l (omega (arith, aligned.0, enough, l)) in
    elim (Bool-cases page.has_more) [
      | inl more ↦ rw more (ap (λ z. z ++ page.messages) older ∙ filled)
      | inr last ↦
          rw last (from_start page.start page.messages (ltb_false→le 0 page.start last) filled)
    ]
  where
    from_start :
        (start : ℕ) (ms : List Message)
        → start ≤ 0
        → take start p.committed ++ ms ≡ take at p.committed
        → ms ≡ take at p.committed
    from_start zero ms z e = e
    from_start (suc start) ms z e = absurd (omega arith)

pub all_pages-eq :
    (limit : ℕ) (p : Projection) → IsIndexed p → 0 < limit → all_pages limit p ≡ p.committed
unfolding pages_before
all_pages-eq limit p h l = rw (tail-slice_before p limit) (
    pages_before-eq (suc (length p.committed)) (length p.committed) limit p h l (omega arith)
    ∙ take_of_le (length p.committed) p.committed (omega arith))
