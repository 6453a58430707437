-- ===== src/Evaluation/Rationale.antt =====
-- pkg/protocol/evaluation.go: `ValidateMetricRationale`.
use science_ladder.Base.{
  is_in, ◌||◌, not, List, [], ◌∷◌, ltb, Bytes, length, Result, ok, Error, message, ◌>>◌, reject_if,
}
use science_ladder.Evaluation.{MetricRationale, bounded_text}

module _ (trim_space : Bytes → Bytes) where
  unfoldable pub check_texts : Error → List Bytes → Result (Unit {0})
  check_texts e [] = ok tt
  check_texts e (s ∷ ss) = do reject_if (not (bounded_text trim_space s)) e; check_texts e ss

  unfoldable pub check_lists : List (List Bytes) → Result (Unit {0})
  unfolding check_texts
  check_lists [] = ok tt
  check_lists (list ∷ lists) = do
    reject_if (ltb (length list) 1 || ltb 32 (length list)) (
        message "metric rationale requires preserved conditions, proxy attacks and excluded claims")
    check_texts (message "metric rationale contains an empty or oversized argument") list
    check_lists lists

  -- The loop over the evidence; `urls` are those of the sources.
  unfoldable pub check_evidence : List Bytes → List Bytes → List Bytes → Result (Unit {0})
  check_evidence urls seen [] = ok tt
  check_evidence urls seen (u ∷ us) = do
    reject_if (not (is_in u urls) || is_in u seen)
        (message "metric rationale references absent or duplicate evidence")
    check_evidence urls (u ∷ seen) us

  unfoldable pub validate_metric_rationale : MetricRationale → List Bytes → Result (Unit {0})
  unfolding check_texts check_lists check_evidence
  validate_metric_rationale r urls = do
    check_texts
        (message
          "metric rationale requires substantive objective, interpretation, baseline, delta and bounded claim")
        (r.objective ∷ r.improvement_meaning ∷ r.baseline_reason ∷ r.meaningful_delta
          ∷ r.permitted_claim ∷ [])
    check_lists (r.preserved_conditions ∷ r.proxy_attacks ∷ r.excluded_claims ∷ [])
    reject_if (ltb (length r.evidence_urls) 1 || ltb 30 (length r.evidence_urls))
        (message "metric rationale must cite supporting evidence")
    check_evidence urls [] r.evidence_urls
