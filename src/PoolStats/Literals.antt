-- ===== src/PoolStats/Literals.antt =====
-- The byte strings of hrm.rs and lib.rs: service name, schema, magic number and hash domains.
use hns_dane_browser_extensi.Prelude.{ℕ, List, [], ◌∷◌, ◌++◌}
use Prim.Native.String.{String}
use Prim.Native.Char.{code}

-- The bytes of an ASCII text.
abbrev pub ascii : String → List ℕ
ascii String.[] = []
ascii (String.◌∷◌ c s) = code c ∷ ascii s

abbrev pub service_name : List ℕ
service_name = ascii "pool-stats"

abbrev pub document_schema : List ℕ
document_schema = ascii "meshmine-pool-stats-hrm-v1"

abbrev pub state_magic : List ℕ
state_magic = ascii "MHR2"

abbrev pub named_service_id_domain : List ℕ
named_service_id_domain = ascii "HNS-HRM-NAMED-SERVICE-ID-V1" ++ 0 ∷ []

abbrev pub endpoint_signature_domain : List ℕ
endpoint_signature_domain = ascii "HNS-HRM-HNSA-ENDPOINT-DELEGATION-V1" ++ 0 ∷ []

abbrev pub endpoint_id_domain : List ℕ
endpoint_id_domain = ascii "HNS-HRM-HNSA-ENDPOINT-DELEGATION-ID-V1" ++ 0 ∷ []

abbrev pub snapshot_signature_domain : List ℕ
snapshot_signature_domain = ascii "HNS-HRM-MESHMINE-POOL-STATS-V1" ++ 0 ∷ []

abbrev pub snapshot_state_domain : List ℕ
snapshot_state_domain = ascii "HNS-HRM-MESHMINE-SNAPSHOT-STATE-V1" ++ 0 ∷ []

abbrev pub state_checksum_domain : List ℕ
state_checksum_domain = ascii "HNS-HRM-MESHMINE-STATE-CHECKSUM-V1" ++ 0 ∷ []
