-- ===== src/NativeHost/Runs.antt =====
-- Runs of the native-messaging host on test data, and what its theorems say of them.
use hns_dane_browser_extensi.Prelude.{
  ℕ, ◌≡◌, refl, Option, true, false, none, some, List, [], ◌∷◌, arith, ◌++◌,
}
use hns_dane_browser_extensi.PoolStats.Bytes.{to_le_bytes}
use hns_dane_browser_extensi.NativeHost.Framing.{
  ReadEvent, arrives, interrupted, to_ne_bytes, Writer, write_native_message,
}
use hns_dane_browser_extensi.Prelude.Result.{ok}
use hns_dane_browser_extensi.NativeHost.Framing.Writing.{IsBuffer, write_native_message-frame}
use hns_dane_browser_extensi.NativeHost.Framing.RoundTrip.{
  frame, Returns, delivered, read_native_message-frame,
}
use hns_dane_browser_extensi.NativeHost.Observations.{
  ActiveSecurityContext, ChromiumConnectSecurityDecision, SecurityObservationState,
  CanonicalSecurityObservation, available, restarted, retain_security_observation,
  retain_connect_security_decision,
}
use hns_dane_browser_extensi.NativeHost.Observations.WellFormed.{
  Operation, activated, observed, decided, epoch_retained, run, WellFormed, run-WellFormed,
  late_observation,
}

-- A frame of two bytes, which arrives in pieces, and the start of the next frame.
abbrev toy_reader : List ReadEvent
toy_reader =
    arrives (2 ∷ 0 ∷ []) ∷ interrupted ∷ arrives (0 ∷ 0 ∷ 7 ∷ []) ∷ arrives (8 ∷ 1 ∷ []) ∷ []

read_native_message-frame_example : Returns false toy_reader (7 ∷ 8 ∷ []) (1 ∷ [])
read_native_message-frame_example =
    read_native_message-frame false (7 ∷ 8 ∷ []) (1 ∷ []) toy_reader (omega arith) (omega arith)
      (omega arith, (omega arith, (omega arith, tt)))
      (unfold delivered to_ne_bytes to_le_bytes in refl)

-- A writer that keeps what it is given.
abbrev toy_writer : Writer (List ℕ)
toy_writer = record { write_all = λ bs w. (none, w ++ bs); flush = λ w. (none, w) }

toy_writer-IsBuffer : IsBuffer toy_writer (λ w. w)
toy_writer-IsBuffer = record {
  write_all_eq = λ bs w. (w ++ bs, refl, refl);
  flush_eq = λ w. (w, refl, refl);
}

-- A response that is its own text.
abbrev toy_text : List ℕ → Option (List ℕ)
toy_text response = some response

write_native_message-frame_example :
    ((write_native_message toy_writer toy_text false (7 ∷ 8 ∷ []) (1 ∷ [])).0 ≡ ok tt)
    × ((write_native_message toy_writer toy_text false (7 ∷ 8 ∷ []) (1 ∷ [])).1
        ≡ (1 ∷ []) ++ frame false (7 ∷ 8 ∷ []))
write_native_message-frame_example =
    write_native_message-frame toy_writer (λ w. w) toy_text false (7 ∷ 8 ∷ []) (7 ∷ 8 ∷ []) (1 ∷ [])
      toy_writer-IsBuffer refl (omega arith) (omega arith)

abbrev toy_context : ActiveSecurityContext
toy_context = record {
  runtime_session = 1 ∷ [];
  runtime_generation = 1;
  policy_generation = 1;
  proxy_generation = 1;
  network = [];
}

-- An observation of an event.
abbrev toy_observation : ℕ → CanonicalSecurityObservation ℕ
toy_observation event =
    available
      (record {
        encoded_session = 1 ∷ [];
        runtime_generation = 1;
        policy_generation = 1;
        event_sequence = event;
      })
      (record {
        event_sequence = event;
        runtime_session = 1 ∷ [];
        runtime_generation = 1;
        policy_generation = 1;
        details = 0;
      })

abbrev toy_decision : ChromiumConnectSecurityDecision ℕ
toy_decision = record { maintenance_epoch = 3; event_sequence = 6; details = 0 }

abbrev toy_calls : List (Operation ℕ)
toy_calls =
    activated toy_context (some 3)
    ∷ observed true 3 (toy_observation 5)
    ∷ observed false 3 (toy_observation 4)
    ∷ decided toy_decision
    ∷ epoch_retained (some 3)
    ∷ []

run-WellFormed_example : WellFormed (run toy_calls (restarted none none))
run-WellFormed_example = run-WellFormed toy_calls

abbrev toy_state : SecurityObservationState ℕ
toy_state = restarted (some toy_context) (some 4)

late_observation_example :
    (retain_security_observation true 3 (toy_observation 5) toy_state ≡ toy_state)
    × (retain_connect_security_decision toy_decision toy_state ≡ toy_state)
late_observation_example =
    late_observation 4 3 true (toy_observation 5) toy_decision toy_state refl (omega arith)
      (omega arith)
