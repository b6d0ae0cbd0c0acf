-- ===== src/Wallet/Controller/Exchanges.antt =====
-- The steps of a controller's operation that succeeded, and the exchange of two payloads.
use hns_dane_browser_extensi.Prelude.{
  ℕ, ◌≡◌, refl, ap, sym, ◌∙◌, Bool, true, false, Option, none, some, List,
}
use hns_dane_browser_extensi.Prelude.Result.{Result, ok, err}
use hns_dane_browser_extensi.Prelude.Exec.{◌>>=◌, reject-bind_ok}
use hns_dane_browser_extensi.Wallet.Controller.{
  ServiceError, broken_pipe, WalletServiceController, Transport, Service, Run, protocol_error,
  violates, parsed, required, reading, update, calling, calling_or_poison, after_failure,
  require_healthy, exchange, set_deadline, deadline_result,
}

-- A step that succeeds and only changes the world, and the rest that ran from there.
pub record Went {W A B : Type 0} (call : W → Result ServiceError A × W) (k : A → Run W B)
    (s : Service W) (b : B) (u : Service W) : Type 0 where
  pub value : A
  pub world : W
  pub did : call s.world ≡ (ok value, world)
  pub rest : k value (record s { world = world }) ≡ (ok b, u)

module _ {W B : Type 0} {b : B} {u : Service W} where
  pub reading-bind_ok :
      {A : Type 0} (f : WalletServiceController → A) (k : A → Run W B) (s : Service W)
      → (reading f >>= k) s ≡ (ok b, u)
      → k (f s.controller) s ≡ (ok b, u)
  unfolding reading ◌>>=◌
  reading-bind_ok f k s h = h

  pub parsed-bind_ok :
      {A : Type 0} (o : Option A) (k : A → Run W B) (s : Service W)
      → (parsed o >>= k) s ≡ (ok b, u)
      → (a : A) × (o ≡ some a) × (k a s ≡ (ok b, u))
  unfolding parsed protocol_error ◌>>=◌
  parsed-bind_ok none k s h = cc
  parsed-bind_ok (some a) k s h = (a, refl, h)

  pub required-bind_ok :
      {A : Type 0} (o : Option A) (e : ServiceError) (k : A → Run W B) (s : Service W)
      → (required o e >>= k) s ≡ (ok b, u)
      → (a : A) × (o ≡ some a) × (k a s ≡ (ok b, u))
  unfolding required ◌>>=◌
  required-bind_ok none e k s h = cc
  required-bind_ok (some a) e k s h = (a, refl, h)

  pub violates-bind_ok :
      (bad : Bool) (k : Unit {0} → Run W B) (s : Service W)
      → (violates bad >>= k) s ≡ (ok b, u)
      → (bad ≡ false) × (k tt s ≡ (ok b, u))
  unfolding violates protocol_error ◌>>=◌
  violates-bind_ok true k s h = cc
  violates-bind_ok false k s h = (refl, h)

  pub update-bind_ok :
      (f : WalletServiceController → WalletServiceController) (k : Unit {0} → Run W B)
      (s : Service W)
      → (update f >>= k) s ≡ (ok b, u)
      → k tt (record s { controller = f s.controller }) ≡ (ok b, u)
  unfolding update ◌>>=◌
  update-bind_ok f k s h = h

  called :
      {A : Type 0} (call : W → Result ServiceError A × W) (r : Result ServiceError A) (w : W)
      (k : A → Run W B) (s : Service W)
      → call s.world ≡ (r, w)
      → ((λ v. (r, record s { world = w })) >>= k) s ≡ (ok b, u)
      → Went call k s b u
  unfolding ◌>>=◌
  called call (ok a) w k s e h = record { value = a; world = w; did = e; rest = h }
  called call (err x) w k s e h = cc

  pub calling-bind_ok :
      {A : Type 0} (call : W → Result ServiceError A × W) (k : A → Run W B) (s : Service W)
      → (calling call >>= k) s ≡ (ok b, u)
      → Went call k s b u
  unfolding calling ◌>>=◌
  calling-bind_ok call k s h = called call (call s.world).0 (call s.world).1 k s refl h

  called_or_poisoned :
      {A : Type 0} (call : W → Result ServiceError A × W) (r : Result ServiceError A) (w : W)
      (k : A → Run W B) (s : Service W)
      → call s.world ≡ (r, w)
      → ((λ v. after_failure (r, record s { world = w })) >>= k) s ≡ (ok b, u)
      → Went call k s b u
  unfolding ◌>>=◌
  called_or_poisoned call (ok a) w k s e h = record { value = a; world = w; did = e; rest = h }
  called_or_poisoned call (err x) w k s e h = cc

  pub calling_or_poison-bind_ok :
      {A : Type 0} (call : W → Result ServiceError A × W) (k : A → Run W B) (s : Service W)
      → (calling_or_poison call >>= k) s ≡ (ok b, u)
      → Went call k s b u
  unfolding calling_or_poison calling ◌>>=◌
  calling_or_poison-bind_ok call k s h =
      called_or_poisoned call (call s.world).0 (call s.world).1 k s refl h

  pub require_healthy-bind_ok :
      (k : Unit {0} → Run W B) (s : Service W)
      → (require_healthy >>= k) s ≡ (ok b, u)
      → (s.controller.poisoned ≡ false) × (k tt s ≡ (ok b, u))
  unfolding require_healthy reading ◌>>=◌
  require_healthy-bind_ok k s h = reject-bind_ok s.controller.poisoned broken_pipe k s h

module _ {W : Type 0} (t : Transport W) where
  -- On a healthy controller and under a deadline, `payload` was written, and then `bytes` were read.
  pub record Exchanged (payload bytes : List ℕ) (s u : Service W) : Type 0 where
    pub healthy : s.controller.poisoned ≡ false
    pub timed : W
    pub written : W
    pub within : t.deadline s.world ≡ (true, timed)
    pub writes : t.write_payload payload timed ≡ (ok tt, written)
    pub reads : t.read_payload written ≡ (ok bytes, u.world)
    pub kept : u ≡ record s { world = u.world }

  abbrev timed_by : Bool × W → Result ServiceError (Unit {0}) × W
  timed_by d = (deadline_result d.0, d.1)

  exchange-Exchanged_at :
      (payload : List ℕ) (s : Service W) {bytes : List ℕ} {u : Service W} (timed written : W)
      → s.controller.poisoned ≡ false
      → set_deadline t s.world ≡ (ok tt, timed)
      → t.write_payload payload timed ≡ (ok tt, written)
      → calling_or_poison t.read_payload (record s { world = written }) ≡ (ok bytes, u)
      → Exchanged payload bytes s u
  unfolding calling_or_poison calling
  exchange-Exchanged_at payload s {bytes} {u} timed written healthy within writes h =
      let (reads, kept) = last (t.read_payload written).0 (t.read_payload written).1 refl h in
      record {
        healthy = healthy;
        timed = timed;
        written = written;
        within = timely (t.deadline s.world) within;
        writes = writes;
        reads = reads;
        kept = kept;
      }
    where
      timely : (d : Bool × W) → timed_by d ≡ (ok tt, timed) → d ≡ (true, timed)
      timely (true, w) e = ap (λ p. (true, p.1)) e
      timely (false, w) e = cc

      last :
          (r : Result ServiceError (List ℕ)) (w : W)
          → t.read_payload written ≡ (r, w)
          → after_failure (r, record s { world = w }) ≡ (ok bytes, u)
          → (t.read_payload written ≡ (ok bytes, u.world)) × (u ≡ record s { world = u.world })
      last (ok a) w e h = (
        e ∙ ap (λ p. (p.0, p.1.world)) h,
        sym (ap (λ p. p.1) h) ∙ ap (λ p. record s { world = p.1.world }) h,
      )
      last (err x) w e h = cc

  pub exchange_ok :
      (payload : List ℕ) (s : Service W) {bytes : List ℕ} {u : Service W}
      → exchange t payload s ≡ (ok bytes, u)
      → Exchanged payload bytes s u
  unfolding exchange
  exchange_ok payload s h =
      let (healthy, a) = require_healthy-bind_ok _ s h in
      let b = calling_or_poison-bind_ok _ _ s a in
      let c = calling_or_poison-bind_ok _ _ (record s { world = b.world }) b.rest in
      exchange-Exchanged_at payload s b.world c.world healthy b.did c.did c.rest
