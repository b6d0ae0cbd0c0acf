-- ===== src/Wallet/AntiRollback/FileSystem.antt =====
-- The calls of the system under the lock, and what writing a state leaves in the state file.
use hns_dane_browser_extensi.Prelude.{
  ℕ, ◌≡◌, refl, ap, sym, subst, ◌∙◌, ◌⊎◌, inl, inr, Bool, true, false, Option, none, some, List, [],
  ◌++◌,
}
use hns_dane_browser_extensi.Prelude.Lists.{bytes_eq}
use hns_dane_browser_extensi.Prelude.Result.{Result, ok, err}
use hns_dane_browser_extensi.Prelude.Exec.Triple.{
  After, Triple, bind-Triple, lift-Triple, reject-Triple,
}
use hns_dane_browser_extensi.Wallet.Rejection.{WalletArtifactRejection, anti_rollback}
use hns_dane_browser_extensi.Wallet.Metadata.{Metadata}
use hns_dane_browser_extensi.Wallet.RollbackState.{WalletAntiRollbackState, Encodings, state_bytes}
use hns_dane_browser_extensi.Wallet.AntiRollback.{
  Files, StateFile, opened, wallet_anti_rollback_state, temporary_name, perform, obtain, success,
  result_of, write_temporary, replace_state_file, unlink_on_error, write_anti_rollback_state_locked,
}

-- A name in the directory that is not the state file's.
abbrev pub IsElsewhere : List ℕ → Type 0
IsElsewhere name = bytes_eq name wallet_anti_rollback_state ≡ false

-- What the code relies on of the directory while it holds the lock. `open_file` is the name and the
-- content of the file that was created last. A file that is created starts empty and holds what was
-- written to it. Creating, writing, changing the mode of and unlinking a file of another name, and
-- the calls that change no file, leave what opening the state file gives. A rename of the open file
-- that succeeds puts its content in the place of the state file, and one that fails does nothing.
pub record IsFileSystem {W : Type 0} (files : Files W) : Type 0 where
  pub open_file : W → List ℕ × List ℕ
  pub open_lock_keeps : (w : W) → files.state_file (files.open_lock w).1 ≡ files.state_file w
  pub lock_keeps : (w : W) → files.state_file (files.lock_exclusive w).1 ≡ files.state_file w
  pub reopen_keeps : (w : W) → files.state_file (files.reopen_lock w).1 ≡ files.state_file w
  pub nonce_keeps : (w : W) → files.state_file (files.fill_nonce w).1 ≡ files.state_file w
  pub create_keeps :
      (n : List ℕ) (w : W)
      → IsElsewhere n
      → files.state_file (files.create_exclusive n w).1 ≡ files.state_file w
  pub create_opens :
      (n : List ℕ) (w : W)
      → (files.create_exclusive n w).0 ≡ true
      → open_file (files.create_exclusive n w).1 ≡ (n, [])
  pub write_keeps :
      (b : List ℕ) (w : W)
      → IsElsewhere (open_file w).0
      → files.state_file (files.write_all b w).1 ≡ files.state_file w
  pub write_appends :
      (b : List ℕ) (w : W)
      → (files.write_all b w).0 ≡ true
      → open_file (files.write_all b w).1 ≡ ((open_file w).0, (open_file w).1 ++ b)
  pub sync_keeps : (w : W) → files.state_file (files.sync_all w).1 ≡ files.state_file w
  pub sync_open : (w : W) → open_file (files.sync_all w).1 ≡ open_file w
  pub chmod_keeps :
      (w : W)
      → IsElsewhere (open_file w).0
      → files.state_file (files.set_read_only w).1 ≡ files.state_file w
  pub chmod_open : (w : W) → open_file (files.set_read_only w).1 ≡ open_file w
  pub metadata_keeps : (w : W) → files.state_file (files.metadata w).1 ≡ files.state_file w
  pub metadata_open : (w : W) → open_file (files.metadata w).1 ≡ open_file w
  pub rename_replaces :
      (n : List ℕ) (w : W)
      → (open_file w).0 ≡ n
      → (files.rename n w).0 ≡ true
      → (m : Metadata) × (f : Metadata) × (files.state_file (files.rename n w).1
          ≡ opened m (open_file w).1 f)
  pub rename_fails :
      (n : List ℕ) (w : W)
      → (files.rename n w).0 ≡ false
      → files.state_file (files.rename n w).1 ≡ files.state_file w
  pub unlink_keeps :
      (n : List ℕ) (w : W)
      → IsElsewhere n
      → files.state_file (files.unlink n w).1 ≡ files.state_file w
  pub sync_directory_keeps :
      (w : W) → files.state_file (files.sync_directory w).1 ≡ files.state_file w

pub result_of-ok : {A : Type 0} (o : Option A) (a : A) → result_of o ≡ ok a → o ≡ some a
result_of-ok none a h = cc
result_of-ok (some b) a h = cc

-- A call of the system that ends in `P` with success and in `X` without.
module _ {W : Type 0} (P Q X : W → Type 0) where
  perform_of :
      (Done : Bool) (w' : W)
      → (Done ≡ true → Q w')
      → (Done ≡ false → X w')
      → After (λ _. Q) X (success Done) w'
  perform_of true w' q x = q refl
  perform_of false w' q x = x refl

  pub perform-Triple :
      (call : W → Bool × W)
      → ((w : W) → P w → (call w).0 ≡ true → Q (call w).1)
      → ((w : W) → P w → (call w).0 ≡ false → X (call w).1)
      → Triple P (perform call) (λ _. Q) X
  unfolding perform
  perform-Triple call q x w p = perform_of (call w).0 (call w).1 (q w p) (x w p)

  obtain_of : {A : Type 0} (o : Option A) (w' : W) → Q w' → X w' → After (λ _. Q) X (result_of o) w'
  obtain_of none w' q x = x
  obtain_of (some a) w' q x = q

  pub obtain-Triple :
      {A : Type 0} (call : W → Option A × W)
      → ((w : W) → P w → Q (call w).1)
      → ((w : W) → P w → X (call w).1)
      → Triple P (obtain call) (λ _. Q) X
  unfolding obtain
  obtain-Triple call q x w p = obtain_of (call w).0 (call w).1 (q w p) (x w p)

module _ {W : Type 0} (c : Encodings) (files : Files W) (fs : IsFileSystem files)
    (before : StateFile) where
  abbrev pub Same : W → Type 0
  Same w = files.state_file w ≡ before

  -- ... and the file that was created is `name` and holds `bytes`.
  abbrev Holding : List ℕ → List ℕ → W → Type 0
  Holding name bytes w = Same w × (fs.open_file w ≡ (name, bytes))

  abbrev pub Moved : List ℕ → W → Type 0
  Moved bytes w = (m : Metadata) × (f : Metadata) × (files.state_file w ≡ opened m bytes f)

  abbrev Either : List ℕ → W → Type 0
  Either bytes w = Same w ⊎ Moved bytes w

  abbrev pub Done : (W → Type 0) → Unit {0} → W → Type 0
  Done Q u = Q

  moved : (bytes : List ℕ) (w : W) → Moved bytes w → Moved bytes (files.sync_directory w).1
  moved bytes w p = let (m, f, e) = p in (m, f, fs.sync_directory_keeps w ∙ e)

  sync_directory-Triple :
      (bytes : List ℕ)
      → Triple (Moved bytes) (perform files.sync_directory) (Done (Moved bytes)) (Either bytes)
  sync_directory-Triple bytes =
      perform-Triple (Moved bytes) (Moved bytes) (Either bytes) files.sync_directory
        (λ w p e. moved bytes w p) (λ w p e. inr (moved bytes w p))

  module _ (name : List ℕ) (elsewhere : IsElsewhere name) where
    rename-Triple :
        (bytes : List ℕ)
        → Triple
            (Holding name bytes)
            (perform (files.rename name))
            (Done (Moved bytes))
            (Either bytes)
    rename-Triple bytes =
        perform-Triple (Holding name bytes) (Moved bytes) (Either bytes) (files.rename name)
          (λ w p e.
            let (m, f, r) = fs.rename_replaces name w (ap (λ o. o.0) p.1) e in
            (m, f, r ∙ ap (λ o. opened m o.1 f) p.1))
          (λ w p e. inl (fs.rename_fails name w e ∙ p.0))

    named :
        {bytes : List ℕ} {w : W} → fs.open_file w ≡ (name, bytes) → IsElsewhere (fs.open_file w).0
    named e = subst IsElsewhere (sym (ap (λ o. o.0) e)) elsewhere

    -- A call that keeps the file that was created.
    keeping-Triple :
        (bytes : List ℕ) (call : W → Bool × W)
        → ((w : W)
            → IsElsewhere (fs.open_file w).0
            → files.state_file (call w).1 ≡ files.state_file w)
        → ((w : W) → fs.open_file (call w).1 ≡ fs.open_file w)
        → Triple (Holding name bytes) (perform call) (Done (Holding name bytes)) (Either bytes)
    keeping-Triple bytes call k l =
        perform-Triple (Holding name bytes) (Holding name bytes) (Either bytes) call
          (λ w p e. (k w (named p.1) ∙ p.0, l w ∙ p.1)) (λ w p e. inl (k w (named p.1) ∙ p.0))

    write-Triple :
        (bytes : List ℕ)
        → Triple
            (Holding name [])
            (perform (files.write_all bytes))
            (Done (Holding name bytes))
            (Either bytes)
    write-Triple bytes =
        perform-Triple (Holding name []) (Holding name bytes) (Either bytes) (files.write_all bytes)
          (λ w p e. (
            fs.write_keeps bytes w (named p.1) ∙ p.0,
            fs.write_appends bytes w e ∙ ap (λ o. (o.0, o.1 ++ bytes)) p.1,
          ))
          (λ w p e. inl (fs.write_keeps bytes w (named p.1) ∙ p.0))

    write_temporary-Triple :
        (bytes : List ℕ)
        → Triple
            (Holding name [])
            (write_temporary c files name bytes)
            (Done (Moved bytes))
            (Either bytes)
    unfolding write_temporary
    write_temporary-Triple bytes =
        bind-Triple (Either bytes) (Holding name []) (Done (Holding name bytes))
          (Done (Moved bytes)) _ _ (write-Triple bytes)
          (λ _.
            bind-Triple (Either bytes) (Holding name bytes) (Done (Holding name bytes))
              (Done (Moved bytes)) _ _
              (keeping-Triple bytes files.sync_all (λ w e. fs.sync_keeps w) fs.sync_open)
              (λ _.
                bind-Triple (Either bytes) (Holding name bytes) (Done (Holding name bytes))
                  (Done (Moved bytes)) _ _
                  (keeping-Triple bytes files.set_read_only fs.chmod_keeps fs.chmod_open)
                  (λ _.
                    bind-Triple (Either bytes) (Holding name bytes) (λ _. Holding name bytes)
                      (Done (Moved bytes)) _ _
                      (obtain-Triple (Holding name bytes) (Holding name bytes) (Either bytes)
                        files.metadata
                        (λ w p. (fs.metadata_keeps w ∙ p.0, fs.metadata_open w ∙ p.1))
                        (λ w p. inl (fs.metadata_keeps w ∙ p.0)))
                      (λ m.
                        reject-Triple (Done (Moved bytes)) _ anti_rollback _ (λ w p. inl p.0)
                          (λ _.
                            bind-Triple (Either bytes) (Holding name bytes)
                              (Done (Holding name bytes)) (Done (Moved bytes)) _ _
                              (keeping-Triple bytes files.sync_all (λ w e. fs.sync_keeps w)
                                fs.sync_open)
                              (λ _.
                                bind-Triple (Either bytes) (Holding name bytes) (Done (Moved bytes))
                                  (Done (Moved bytes)) _ _ (rename-Triple bytes)
                                  (λ _. sync_directory-Triple bytes)))))))

    replaced_or_not :
        (bytes : List ℕ) (r : Result WalletArtifactRejection (Unit {0})) (w : W)
        → After (Done (Moved bytes)) (Either bytes) r w
        → After
            (Done (Moved bytes))
            (Either bytes)
            (unlink_on_error c files name (r, w)).0
            (unlink_on_error c files name (r, w)).1
    replaced_or_not bytes (ok u) w p = p
    replaced_or_not bytes (err e) w (inl s) = inl (fs.unlink_keeps name w elsewhere ∙ s)
    replaced_or_not bytes (err e) w (inr p) =
        let (m, f, q) = p in inr (m, f, fs.unlink_keeps name w elsewhere ∙ q)

    replace_state_file-Triple :
        (bytes : List ℕ)
        → Triple
            (Holding name [])
            (replace_state_file c files name bytes)
            (Done (Moved bytes))
            (Either bytes)
    unfolding replace_state_file
    replace_state_file-Triple bytes w p =
        replaced_or_not bytes _ _ (write_temporary-Triple bytes w p)

  -- The state file is as before, or holds the bytes of `s`.
  abbrev pub Written : WalletAntiRollbackState → W → Type 0
  Written s w = (bytes : List ℕ) × (state_bytes c s ≡ some bytes) × Moved bytes w

  abbrev pub SameOrWritten : WalletAntiRollbackState → W → Type 0
  SameOrWritten s w = Same w ⊎ Written s w

  landed :
      (s : WalletAntiRollbackState) (bytes : List ℕ)
      → state_bytes c s ≡ some bytes
      → (r : Result WalletArtifactRejection (Unit {0})) (w : W)
      → After (Done (Moved bytes)) (Either bytes) r w
      → After (Done (Written s)) (SameOrWritten s) r w
  landed s bytes e (ok u) w p = (bytes, e, p)
  landed s bytes e (err x) w (inl q) = inl q
  landed s bytes e (err x) w (inr p) = inr (bytes, e, p)

  -- The name starts with a dot.
  temporary_name-IsElsewhere : (nonce : List ℕ) → IsElsewhere (temporary_name c files nonce)
  unfolding bytes_eq
  temporary_name-IsElsewhere nonce = refl

  pub write_state-Triple :
      (s : WalletAntiRollbackState)
      → Triple Same
          (write_anti_rollback_state_locked c files s)
          (Done (Written s))
          (SameOrWritten s)
  unfolding write_anti_rollback_state_locked
  write_state-Triple s =
      lift-Triple (Done (Written s)) _ _ (λ w p. inl p)
        (λ bytes e.
          reject-Triple (Done (Written s)) _ anti_rollback _ (λ w p. inl p)
            (λ _.
              bind-Triple (SameOrWritten s) Same (λ _. Same) (Done (Written s)) _ _
                (obtain-Triple Same Same (SameOrWritten s) files.fill_nonce
                  (λ w p. fs.nonce_keeps w ∙ p) (λ w p. inl (fs.nonce_keeps w ∙ p)))
                (λ nonce.
                  let name = temporary_name c files nonce in
                  let elsewhere = temporary_name-IsElsewhere nonce in
                  bind-Triple (SameOrWritten s) Same (Done (Holding name [])) (Done (Written s)) _ _
                    (perform-Triple Same (Holding name []) (SameOrWritten s)
                      (files.create_exclusive name)
                      (λ w p d. (fs.create_keeps name w elsewhere ∙ p, fs.create_opens name w d))
                      (λ w p d. inl (fs.create_keeps name w elsewhere ∙ p)))
                    (λ _ w p.
                      landed s bytes (result_of-ok _ bytes e) _ _
                        (replace_state_file-Triple name elsewhere bytes w p)))))
