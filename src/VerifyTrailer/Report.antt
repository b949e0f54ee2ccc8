-- ===== src/VerifyTrailer/Report.antt =====
-- The report that src/core/verify_trailer.py reads from the end, against the events in order.
use claude_code_manager.Base.{
  ℕ, ◌<◌, ◌≡◌, refl, sym, ◌∙◌, ap, Bool, true, false, Option, none, some, List, [], ◌∷◌, reverse,
  Text, find, Bool-cases, Option-cases, inl, inr,
}
use claude_code_manager.Ndjson.{Json, split, events, iter_ndjson_events_from_end}
use claude_code_manager.Ndjson.FromEnd.{iter_ndjson_events_from_end-reverse}
use claude_code_manager.VerifyTrailer.{
  LogEvent, is_result, assistant_text_of, payload_of, or_later, or_empty, on_result, on_other, Step,
  answer, go_on, visit, resolve_from, resolve_final_report,
}

-- The first text of an assistant event in a list.
abbrev pub first_text : (ℕ → Bool) → List LogEvent → Option Text
first_text is_space [] = none
first_text is_space (e ∷ es) = or_later (assistant_text_of is_space e) (first_text is_space es)

abbrev pub payload_or : (ℕ → Bool) → Option LogEvent → Text → Text
payload_or is_space none text = text
payload_or is_space (some r) text = elim (payload_of is_space r) [ none ↦ text | some p ↦ p ]

-- The report of events in the order of the file: the payload of the last result event where it
-- carries text, else the last text of an assistant event, else nothing.
abbrev pub report_of : (ℕ → Bool) → List LogEvent → Text
report_of is_space es =
    payload_or is_space (find is_result (reverse es)) (or_empty (first_text is_space (reverse es)))

or_later_assoc {ℓ} :
    {A : Type ℓ} (a b c : Option A) → or_later (or_later a b) c ≡ or_later a (or_later b c)
or_later_assoc none b c = refl
or_later_assoc (some a) b c = refl

or_later-none {ℓ} : {A : Type ℓ} (a : Option A) → or_later a none ≡ a
or_later-none none = refl
or_later-none (some a) = refl

step_answer : (ℕ → Bool) → List LogEvent → Step → Text
step_answer is_space es (answer s) = s
step_answer is_space es (go_on text seen) = resolve_from is_space es text seen

resolve_from-step :
    (is_space : ℕ → Bool) (e : LogEvent) (es : List LogEvent) (text : Option Text) (seen : Bool)
    → resolve_from is_space (e ∷ es) text seen
      ≡ step_answer is_space es (visit is_space e text seen)
unfolding resolve_from step_answer
resolve_from-step is_space e es text seen = go (visit is_space e text seen)
  where
    go :
        (s : Step)
        → (elim s [ answer t ↦ t | go_on t' s' ↦ resolve_from is_space es t' s' ])
          ≡ step_answer is_space es s
    go (answer t) = refl
    go (go_on t s) = refl

other_step :
    (is_space : ℕ → Bool) (es : List LogEvent) (text : Option Text)
    → resolve_from is_space es none true ≡ or_empty (first_text is_space es)
    → step_answer is_space es (on_other text true)
      ≡ or_empty (or_later text (first_text is_space es))
unfolding step_answer
other_step is_space es none h = h
other_step is_space es (some t) h = refl

on_other_unseen : (text : Option Text) → on_other text false ≡ go_on text false
on_other_unseen none = refl
on_other_unseen (some t) = refl

-- Once a result has been seen, the text decides.
seen_result :
    (is_space : ℕ → Bool) (es : List LogEvent) (text : Option Text)
    → resolve_from is_space es text true ≡ or_empty (or_later text (first_text is_space es))
unfolding visit
seen_result is_space [] text = unfold resolve_from in ap or_empty (sym (or_later-none text))
seen_result is_space (e ∷ es) text =
    let text' = or_later text (assistant_text_of is_space e) in
    resolve_from-step is_space e es text true
    ∙ other_step is_space es text' (seen_result is_space es none)
    ∙ ap or_empty (or_later_assoc text (assistant_text_of is_space e) (first_text is_space es))

result_step :
    (is_space : ℕ → Bool) (e : LogEvent) (es : List LogEvent) (text : Option Text)
    → step_answer is_space es (on_result (payload_of is_space e) text)
      ≡ payload_or is_space (some e) (or_empty (or_later text (first_text is_space es)))
unfolding step_answer
result_step is_space e es text = elim (Option-cases (payload_of is_space e)) [
  | inl h ↦ rw (payload_or, h) (seen_result is_space es text)
  | inr (p, h) ↦ rw (payload_or, h) refl
]

no_result_yet :
    (is_space : ℕ → Bool) (es : List LogEvent) (text : Option Text)
    → resolve_from is_space es text false
      ≡ payload_or is_space (find is_result es) (or_empty (or_later text (first_text is_space es)))
unfolding visit step_answer
no_result_yet is_space [] text = unfold resolve_from in ap or_empty (sym (or_later-none text))
no_result_yet is_space (e ∷ es) text =
    let text' = or_later text (assistant_text_of is_space e) in
    let later = or_later_assoc text (assistant_text_of is_space e) (first_text is_space es) in
    resolve_from-step is_space e es text false ∙ (elim (Bool-cases (is_result e)) [
      | inl h ↦ rw (h) (
          result_step is_space e es text'
          ∙ ap (λ t. payload_or is_space (some e) (or_empty t)) later)
      | inr h ↦
          rw (h, on_other_unseen text')
            (no_result_yet is_space es text'
              ∙ ap (λ t. payload_or is_space (find is_result es) (or_empty t)) later)
    ])

-- What is read from the end of a log, in windows of any positive size and no further than needed,
-- is the report of the whole log.
pub resolve_final_report-report_of :
    (is_space : ℕ → Bool) (json : Json LogEvent) (size : ℕ) (file : Text)
    → 0 < size
    → resolve_final_report is_space (iter_ndjson_events_from_end json size (some file))
      ≡ report_of is_space (events json (split file))
resolve_final_report-report_of is_space json size file h =
    rw (iter_ndjson_events_from_end-reverse json size file h)
      (no_result_yet is_space (reverse (events json (split file))) none)
