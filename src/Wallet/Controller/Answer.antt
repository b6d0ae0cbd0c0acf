-- ===== src/Wallet/Controller/Answer.antt =====
-- What an answer of the service was checked against.
use hns_dane_browser_extensi.Prelude.{
  ℕ, ◌+◌, ◌≡◌, refl, ap, sym, ◌∙◌, Bool, true, false, not, Option, none, some, List, checked_add,
  arith,
}
use hns_dane_browser_extensi.Prelude.Lists.{bytes_eq→eq}
use hns_dane_browser_extensi.Prelude.Result.{Result, ok}
use hns_dane_browser_extensi.Prelude.Exec.{pure, raise, ◌>>=◌, ran, bind-Ran}
use hns_dane_browser_extensi.Wallet.Controller.{
  ServiceError, WalletServiceController, WalletReadOnlyServiceRequest, WalletHostRequestEnvelope,
  WalletServiceResponseEnvelope, WalletReadOnlyServiceResponse, wallet, wallet_authority, failure,
  WalletServiceResponseKind, Transport, Service, Run, protocol_error, violates, parsed, reading,
  update, advance_sequences, accept_body, service_request, envelope_mismatch, is_of_kind,
}
use hns_dane_browser_extensi.Wallet.Controller.Exchanges.{
  reading-bind_ok, required-bind_ok, parsed-bind_ok, violates-bind_ok, calling-bind_ok, Exchanged,
  exchange_ok,
}

module _ {W : Type 0} (t : Transport W) where
  -- The two sequences, one further.
  abbrev pub sequenced : WalletServiceController → ℕ → ℕ → WalletServiceController
  sequenced c host service = record c { next_host_sequence = host; next_service_sequence = service }

  parsed-bind-bind_ok :
      {A C B : Type 0} {b : B} {u : Service W} (o : Option A) (f : A → Run W C) (k : C → Run W B)
      (s : Service W)
      → ((parsed o >>= f) >>= k) s ≡ (ok b, u)
      → (a : A) × (o ≡ some a) × ((f a >>= k) s ≡ (ok b, u))
  unfolding parsed protocol_error ◌>>=◌
  parsed-bind-bind_ok none f k s h = cc
  parsed-bind-bind_ok (some a) f k s h = (a, refl, h)

  abbrev host_of : WalletServiceController → Option ℕ
  host_of c = checked_add c.next_host_sequence 1

  abbrev service_of : WalletServiceController → Option ℕ
  service_of c = checked_add c.next_service_sequence 1

  abbrev set_sequences : ℕ → ℕ → Run W (Unit {0})
  set_sequences host service = update (λ c. sequenced c host service)

  checked_add-some : (n m : ℕ) → checked_add n 1 ≡ some m → m ≡ n + 1
  checked_add-some n m h = ground arith

  advance-bind_ok :
      {B : Type 0} {b : B} {u : Service W} (k : Unit {0} → Run W B) (s : Service W)
      → (advance_sequences >>= k) s ≡ (ok b, u)
      → k tt (record s {
        controller =
            sequenced s.controller
              (s.controller.next_host_sequence + 1)
              (s.controller.next_service_sequence + 1);
      })
        ≡ (ok b, u)
  unfolding advance_sequences reading update ◌>>=◌
  advance-bind_ok {B} {b} {u} k s h =
      let (x, e, a) =
        parsed-bind-bind_ok {b = b} {u = u} (host_of s.controller)
          (λ host. reading service_of >>= λ o. parsed o >>= λ service. set_sequences host service) k
          s h in
      let (y, f, r) =
        parsed-bind-bind_ok {b = b} {u = u} (service_of s.controller)
          (λ service. set_sequences x service) k s a in
      let p = checked_add-some s.controller.next_host_sequence x e in
      let q = checked_add-some s.controller.next_service_sequence y f in rw (← p, ← q) r

  -- The envelope in which the controller sends a request.
  abbrev pub sent_envelope :
      WalletServiceController → List ℕ → WalletReadOnlyServiceRequest → WalletHostRequestEnvelope
  sent_envelope c request_id body = record {
    protocol_version = 2;
    host_session_id = c.host_session_id;
    service_session_id = c.service_session_id;
    restart_generation = c.restart_generation;
    channel_sequence = c.next_host_sequence;
    request_id = request_id;
    body = body;
  }

  -- The envelope that answers it.
  pub record IsExpected (c : WalletServiceController) (request_id : List ℕ)
      (e : WalletServiceResponseEnvelope) : Type 0 where
    pub version : e.protocol_version ≡ 2
    pub host : e.host_session_id ≡ c.host_session_id
    pub service : e.service_session_id ≡ c.service_session_id
    pub generation : e.restart_generation ≡ c.restart_generation
    pub sequence : e.channel_sequence ≡ c.next_service_sequence
    pub answers : e.request_id ≡ request_id

  matching-IsExpected :
      (c : WalletServiceController) (request_id : List ℕ) (e : WalletServiceResponseEnvelope)
      → envelope_mismatch t c request_id e ≡ false
      → IsExpected c request_id e
  unfolding envelope_mismatch
  matching-IsExpected c request_id e h = record {
    version = ground arith;
    host = bytes_eq→eq _ _ (ground arith);
    service = bytes_eq→eq _ _ (ground arith);
    generation = ground arith;
    sequence = ground arith;
    answers = bytes_eq→eq _ _ (ground arith);
  }

  -- What an answer went through.
  pub record IsAnswer (body : WalletReadOnlyServiceRequest) (kind : WalletServiceResponseKind)
      (s u : Service W) (response : WalletReadOnlyServiceResponse) : Type 0 where
    pub request_id : List ℕ
    pub identified : W
    pub payload : List ℕ
    pub bytes : List ℕ
    pub envelope : WalletServiceResponseEnvelope
    pub drawn : t.random_wallet_wire_id 16 s.world ≡ (ok request_id, identified)
    pub sent : t.encode_request (sent_envelope s.controller request_id body) ≡ some payload
    pub exchanged :
        Exchanged t payload bytes (record s { world = identified }) (record s { world = u.world })
    pub received : t.decode_response bytes ≡ some envelope
    pub expected : IsExpected s.controller request_id envelope
    pub carries : envelope.body ≡ response
    pub of_kind : is_of_kind response kind ≡ true
    pub next :
        u.controller
        ≡ sequenced s.controller
            (s.controller.next_host_sequence + 1)
            (s.controller.next_service_sequence + 1)

  abbrev Accepted :
      WalletReadOnlyServiceResponse
      → WalletServiceResponseKind
      → Service W
      → WalletReadOnlyServiceResponse
      → Service W
      → Type 0
  Accepted r kind s response u =
      (r ≡ response)
      × (is_of_kind response kind ≡ true)
      × (u ≡ record s {
        controller =
            sequenced s.controller (s.controller.next_host_sequence + 1)
              (s.controller.next_service_sequence + 1);
      })

  body_ok :
      (r : WalletReadOnlyServiceResponse) (kind : WalletServiceResponseKind) (s : Service W)
      {response : WalletReadOnlyServiceResponse} {u : Service W}
      → (violates (not (is_of_kind r kind)) >>= λ _. advance_sequences >>= λ _. pure r) s
        ≡ (ok response, u)
      → Accepted r kind s response u
  unfolding pure
  body_ok r kind s {response} {u} h =
      let (e, a) = violates-bind_ok _ _ s h in
      let b = advance-bind_ok _ s a in
      let q : r ≡ response = ok_eq _ r response refl (ap (λ p. p.0) b) in
      (q, rw (← q) (not-false _ e), sym (ap (λ p. p.1) b))
    where
      ok_eq :
          (x : Result ServiceError WalletReadOnlyServiceResponse)
          (a b : WalletReadOnlyServiceResponse)
          → x ≡ ok a
          → x ≡ ok b
          → a ≡ b
      ok_eq x a b h k = cc

      not-false : (b : Bool) → not b ≡ false → b ≡ true
      not-false true h = refl
      not-false false h = cc

  accept_body_ok :
      (r : WalletReadOnlyServiceResponse) (kind : WalletServiceResponseKind) (s : Service W)
      {response : WalletReadOnlyServiceResponse} {u : Service W}
      → accept_body t r kind s ≡ (ok response, u)
      → Accepted r kind s response u
  unfolding accept_body raise
  accept_body_ok (failure f) kind s h =
      let (p, a) = violates-bind_ok _ _ s h in
      let (q, b) = violates-bind_ok _ _ s a in let c = advance-bind_ok _ s b in cc
  accept_body_ok (wallet r) kind s h = body_ok (wallet r) kind s h
  accept_body_ok (wallet_authority c) kind s h = body_ok (wallet_authority c) kind s h

  -- A request that is answered got a fresh identifier and was written on a healthy controller, under
  -- a deadline, in an envelope of the protocol's version and the controller's sessions, generation
  -- and host sequence. What was read back next parsed to an envelope with that version, those
  -- sessions, that generation and identifier and the expected service sequence, whose body is the
  -- answer and has the expected class. The only change to the controller is that both sequences are
  -- one further.
  pub service_request-IsAnswer :
      (body : WalletReadOnlyServiceRequest) (kind : WalletServiceResponseKind) (s u : Service W)
      (response : WalletReadOnlyServiceResponse)
      → service_request t body kind s ≡ (ok response, u)
      → IsAnswer body kind s u response
  unfolding service_request
  service_request-IsAnswer body kind s u response h =
      let a = calling-bind_ok _ _ s h in
      let s1 = record s { world = a.world } in
      let b = reading-bind_ok _ _ s1 a.rest in
      let (payload, sent, c) = required-bind_ok _ _ _ s1 b in
      elim (bind-Ran _ _ s1 c) [
        | ran bytes v x l ↦
            let exchanged = exchange_ok t payload s1 x in
            let s2 = record s { world = v.world } in
            let (envelope, received, d) = parsed-bind_ok _ _ s2 (rw exchanged.kept at l) in
            let e = reading-bind_ok _ _ s2 d in
            let (matches, f) = violates-bind_ok _ _ s2 e in
            let (carries, of_kind, next) = accept_body_ok envelope.body kind s2 f in
            record {
              request_id = a.value;
              identified = a.world;
              payload = payload;
              bytes = bytes;
              envelope = envelope;
              drawn = a.did;
              sent = sent;
              exchanged = record {
                healthy = exchanged.healthy;
                timed = exchanged.timed;
                written = exchanged.written;
                within = exchanged.within;
                writes = exchanged.writes;
                reads = exchanged.reads ∙ ap (λ w. (ok bytes, w)) (sym (ap (λ q. q.world) next));
                kept = refl;
              };
              received = received;
              expected = matching-IsExpected s.controller a.value envelope matches;
              carries = carries;
              of_kind = of_kind;
              next = ap (λ q. q.controller) next;
            }
      ]
