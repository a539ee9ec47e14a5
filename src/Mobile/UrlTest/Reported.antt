-- ===== src/Mobile/UrlTest/Reported.antt =====
-- What a handler is told of a URL test.
use nunya_core.Common.{
  ℕ, ◌≡◌, refl, sym, ap, ◌∙◌, true, not, ◌&&◌, ◌||◌, Option, none, some, List, [], ◌∷◌, ◌++◌,
  if◌then◌else◌, Bool-cases, inl, inr, arith, eq_text, eq_text→eq, has_text, map, length,
  append-nil,
}
use nunya_core.Probe.UrlTest.{UrlTestResult}
use nunya_core.Mobile.UrlTest.{
  Report, UrlTestReporter, new_url_test_reporter, report_of, report, report_all, run_ticks, run,
}

-- The calls of OnResult for the tag `t`.
unfoldable pub calls_for : List ℕ → List Report → List Report
unfolding eq_text
calls_for t [] = []
calls_for t (c ∷ cs) = if eq_text c.tag t then c ∷ calls_for t cs else calls_for t cs

-- The call that the first of the results with the tag `t` asks for, if there is one.
unfoldable pub first_call : List ℕ → List (Option UrlTestResult) → List Report
unfolding eq_text
first_call t [] = []
first_call t (none ∷ xs) = first_call t xs
first_call t (some x ∷ xs) = if eq_text x.tag t then report_of x ∷ [] else first_call t xs

module _ (t : List ℕ) where
  calls_for-append :
      (xs ys : List Report) → calls_for t (xs ++ ys) ≡ calls_for t xs ++ calls_for t ys
  unfolding calls_for
  calls_for-append [] ys = refl
  calls_for-append (x ∷ xs) ys = ground (arith, calls_for-append xs ys)

  report-tags : (x : Option UrlTestResult) (r : UrlTestReporter) → (report x r).tags ≡ r.tags
  unfolding report
  report-tags none r = refl
  report-tags (some x) r = ground arith

  report-none : (r : UrlTestReporter) → report none r ≡ r
  unfolding report
  report-none r = refl

  -- The tag is reported, and by which call, depends on whether the result has it.
  report-reported :
      (x : UrlTestResult) (r : UrlTestReporter)
      → has_text (report (some x) r).reported t
        ≡ (has_text r.reported t || (has_text r.tags t && eq_text x.tag t))
  unfolding report has_text
  report-reported x r = elim (Bool-cases (eq_text x.tag t)) [
    | inl e ↦
        let s = eq_text→eq x.tag t e in
        ground (arith, ap (has_text r.tags) s, ap (has_text r.reported) s)
    | inr e ↦ ground arith
  ]

  report-calls :
      (x : UrlTestResult) (r : UrlTestReporter)
      → calls_for t (report (some x) r).calls
        ≡ calls_for t r.calls
          ++ (if not (has_text r.reported t) && (has_text r.tags t && eq_text x.tag t)
              then report_of x ∷ []
              else [])
  unfolding report calls_for
  report-calls x r = elim (Bool-cases (eq_text x.tag t)) [
    | inl e ↦
        let s = eq_text→eq x.tag t e in
        ground (
          arith,
          ap (has_text r.tags) s,
          ap (has_text r.reported) s,
          calls_for-append r.calls (report_of x ∷ []),
          append-nil (calls_for t r.calls),
        )
    | inr e ↦
        ground
          (arith, calls_for-append r.calls (report_of x ∷ []), append-nil (calls_for t r.calls))
  ]

  report_all-calls :
      (xs : List (Option UrlTestResult)) (r : UrlTestReporter)
      → calls_for t (report_all xs r).calls
        ≡ calls_for t r.calls
          ++ (if not (has_text r.reported t) && has_text r.tags t then first_call t xs else [])
  unfolding report_all first_call
  report_all-calls [] r = ground (arith, append-nil (calls_for t r.calls))
  report_all-calls (none ∷ xs) r = simp (report-none r) (report_all-calls xs r)
  report_all-calls (some x ∷ xs) r = ground (
    arith,
    report_all-calls xs (report (some x) r),
    report-calls x r,
    report-reported x r,
    ap (λ (l : List (List ℕ)). has_text l t) (report-tags (some x) r),
    append-nil (calls_for t r.calls),
    append-nil (calls_for t r.calls ++ (report_of x ∷ [])),
  )

-- All results in the order in which run looks at them.
unfoldable pub seen :
    List (List (Option UrlTestResult))
    → List (Option UrlTestResult)
    → List UrlTestResult
    → List (Option UrlTestResult)
seen [] last results = last ++ map some results
seen (drained ∷ ticks) last results = drained ++ seen ticks last results

report_all-append :
    (xs ys : List (Option UrlTestResult)) (r : UrlTestReporter)
    → report_all (xs ++ ys) r ≡ report_all ys (report_all xs r)
unfolding report_all
report_all-append [] ys r = refl
report_all-append (x ∷ xs) ys r = report_all-append xs ys (report x r)

run_all :
    (ticks : List (List (Option UrlTestResult))) (last : List (Option UrlTestResult))
    (results : List UrlTestResult) (r : UrlTestReporter)
    → run ticks last results r ≡ report_all (seen ticks last results) r
unfolding run run_ticks seen
run_all [] last results r = sym (report_all-append last (map some results) r)
run_all (drained ∷ ticks) last results r =
    run_all ticks last results (report_all drained r)
    ∙ sym (report_all-append drained (seen ticks last results) r)

module _ (t : List ℕ) where
  -- The handler is called for an own tag by the first result that has it.
  pub run-calls :
      (tags : List (List ℕ)) (ticks : List (List (Option UrlTestResult)))
      (last : List (Option UrlTestResult)) (results : List UrlTestResult)
      → calls_for t (run ticks last results (new_url_test_reporter tags)).calls
        ≡ (if has_text tags t then first_call t (seen ticks last results) else [])
  unfolding has_text calls_for
  run-calls tags ticks last results =
      ap (λ (r : UrlTestReporter). calls_for t r.calls)
        (run_all ticks last results (new_url_test_reporter tags))
      ∙ report_all-calls t (seen ticks last results) (new_url_test_reporter tags)

  -- A result with the tag asks for one call.
  first_results :
      (results : List UrlTestResult)
      → has_text (map (λ (x : UrlTestResult). x.tag) results) t ≡ true
      → length (first_call t (map some results)) ≡ 1
  unfolding has_text first_call
  first_results [] h = cc
  first_results (x ∷ xs) h = ground (arith, first_results xs)

  first_behind :
      (xs ys : List (Option UrlTestResult))
      → length (first_call t ys) ≡ 1
      → length (first_call t (xs ++ ys)) ≡ 1
  unfolding first_call
  first_behind [] ys h = h
  first_behind (none ∷ xs) ys h = first_behind xs ys h
  first_behind (some x ∷ xs) ys h = ground (arith, first_behind xs ys h)

  pub first_seen :
      (ticks : List (List (Option UrlTestResult))) (last : List (Option UrlTestResult))
      (results : List UrlTestResult)
      → has_text (map (λ (x : UrlTestResult). x.tag) results) t ≡ true
      → length (first_call t (seen ticks last results)) ≡ 1
  unfolding seen
  first_seen [] last results h = first_behind last (map some results) (first_results results h)
  first_seen (drained ∷ ticks) last results h =
      first_behind drained (seen ticks last results) (first_seen ticks last results h)

  pub run_once :
      (tags : List (List ℕ)) (ticks : List (List (Option UrlTestResult)))
      (last : List (Option UrlTestResult)) (results : List UrlTestResult)
      → map (λ (x : UrlTestResult). x.tag) results ≡ tags
      → length (calls_for t (run ticks last results (new_url_test_reporter tags)).calls)
        ≡ (if has_text tags t then 1 else 0)
  run_once tags ticks last results e = elim (Bool-cases (has_text tags t)) [
    | inl h ↦ rw h (
        ap length (rw h at (run-calls tags ticks last results))
        ∙ first_seen ticks last results (ap (λ (l : List (List ℕ)). has_text l t) e ∙ h))
    | inr h ↦ rw h (ap length (rw h at (run-calls tags ticks last results)))
  ]
