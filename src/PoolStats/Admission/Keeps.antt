-- ===== src/PoolStats/Admission/Keeps.antt =====
-- Verification of a document keeps what every method of the state keeps.
use hns_dane_browser_extensi.Prelude.{ℕ, List}
use hns_dane_browser_extensi.PoolStats.Crypto.{Crypto}
use hns_dane_browser_extensi.PoolStats.Authority.{HrmPoolStatsRequest, CurrentHrmNamedService}
use hns_dane_browser_extensi.PoolStats.Document.{Formats}
use hns_dane_browser_extensi.PoolStats.Endpoint.{EndpointDelegation}
use hns_dane_browser_extensi.PoolStats.State.{HrmPoolStatsState}
use hns_dane_browser_extensi.PoolStats.State.Keeps.{
  Follows, Keeps, keeps_rules, require_active-Keeps, observe_authority-Keeps,
  advance_endpoint-Keeps, advance_snapshot-Keeps,
}
use hns_dane_browser_extensi.PoolStats.Admission.{admit_snapshot, admit_document, verify_document}

module _ (c : Crypto) (f : Formats) where
  admit_snapshot-Keeps :
      (a : CurrentHrmNamedService) (r : HrmPoolStatsRequest) (e : EndpointDelegation)
      (bytes : List ℕ)
      → Keeps (admit_snapshot c f a r e bytes)
  unfolding admit_snapshot
  admit_snapshot-Keeps a r e bytes = search (keeps_rules, advance_snapshot-Keeps) depth 8

  admit_document-Keeps :
      (a : CurrentHrmNamedService) (r : HrmPoolStatsRequest) (bytes : List ℕ)
      → Keeps (admit_document c f a r bytes)
  unfolding admit_document
  admit_document-Keeps a r bytes =
      search (keeps_rules, advance_endpoint-Keeps, admit_snapshot-Keeps) depth 9

  pub verify_document-Keeps :
      (a : CurrentHrmNamedService) (r : HrmPoolStatsRequest) (bytes : List ℕ)
      → Keeps (verify_document c f a r bytes)
  unfolding verify_document
  verify_document-Keeps a r bytes =
      search (keeps_rules, observe_authority-Keeps, require_active-Keeps, admit_document-Keeps)
        depth 7

  -- Whatever the document and whether it is admitted or refused: the generation does not fall, a
  -- state at the same generation is the same state, trusted time does not go back once an
  -- authority was observed, and a scope that is not active does not become active.
  pub verify_document-Follows :
      (a : CurrentHrmNamedService) (r : HrmPoolStatsRequest) (bytes : List ℕ)
      (s : HrmPoolStatsState)
      → Follows s (verify_document c f a r bytes s).1
  verify_document-Follows a r bytes s = (verify_document-Keeps a r bytes).at s
