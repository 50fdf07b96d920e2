-- ===== src/Setup/Deploy/Replacing.antt =====
-- The step `binary` of internal/core/setup/deploy.go: what it replaces, and when.
use weave_adapters.Prelude.Text.{text_eq}
use weave_adapters.Prelude.{
  ◌≡◌, ◌⊎◌, ◌∙◌, refl, sym, ap, true, false, Option, none, some, arith, inl, inr, Bool-cases,
}
use weave_adapters.Auth.Save.{Bytes}
use weave_adapters.Setup.Reconcile.{satisfied, pending, Verdict, Err, Plan, verdict}
use weave_adapters.Setup.Deploy.{
  ServiceStatus, Manager, Host, Options, Disk, read_status, is_running, with_bin, with_dest,
  replace_verdict, compared, check_binary, stop_for_replace, copied, then_copy, apply_binary,
}

module _ {M : Type 0} (m : Manager M) (o : Options) (d : Disk) where
  -- The service is not running, or the run may stop it.
  abbrev pub MayStop : M → Type 0
  MayStop x =
      (s : ServiceStatus) × (read_status m x ≡ some s)
      × ((is_running s ≡ false) ⊎ (o.restart ≡ true))

  -- The check of the step is satisfied.
  abbrev pub IsDone : Plan (Host M) → Type 0
  IsDone q = (v : Verdict) × ((check_binary m o d q).1 ≡ verdict v) × (v.condition ≡ satisfied)

  verdict_injective : {v w : Verdict} → verdict v ≡ verdict w → v ≡ w
  verdict_injective h = ground (arith, h)

  replace-MayStop :
      (p : Plan (Host M)) (r : Option ServiceStatus) (v : Verdict)
      → read_status m p.others.machine ≡ r
      → (replace_verdict m o d p r).1 ≡ verdict v
      → v.condition ≡ pending
      → MayStop p.others.machine
  replace-MayStop p none v e h c = ground (arith, h)
  replace-MayStop p (some s) v e h c = (s, e, ground (arith, h, c))

  replacing :
      (p : Plan (Host M)) (new old : Bytes)
      → d.readable ≡ true
      → text_eq (d.sum new) (d.sum old) ≡ false
      → (compared m o d p (some new) (some old)).1
        ≡ (replace_verdict m o d p (read_status m p.others.machine)).1
  replacing p new old t g = rw (t, g) refl

  compared-MayStop :
      (p : Plan (Host M)) (source : Option Bytes) (old : Bytes) (v : Verdict)
      → (compared m o d p source (some old)).1 ≡ verdict v
      → v.condition ≡ pending
      → MayStop p.others.machine
  compared-MayStop p none old v h c = ground (arith, h)
  compared-MayStop p (some new) old v h c = elim (Bool-cases d.readable) [
    | inr f ↦ ground (arith, h, f)
    | inl t ↦ elim (Bool-cases (text_eq (d.sum new) (d.sum old))) [
      | inl g ↦ ground (arith, h, c, t, g)
      | inr g ↦
          replace-MayStop p (read_status m p.others.machine) v refl
            (sym (replacing p new old t g) ∙ h) c
    ]
  ]

  -- Where a file is at the destination, and the check is `Pending`, the service is not running, or the run may stop it.
  pub check_binary-MayStop :
      (p : Plan (Host M)) (old : Bytes) (v : Verdict)
      → p.others.dest ≡ some old
      → (check_binary m o d p).1 ≡ verdict v
      → v.condition ≡ pending
      → MayStop p.others.machine
  unfolding check_binary
  check_binary-MayStop p old v e h c = elim (Bool-cases o.no_copy) [
    | inl n ↦ ground (arith, h, c, n)
    | inr n ↦ elim (Bool-cases d.same_file) [
      | inl s ↦ ground (arith, h, c, n, s)
      | inr s ↦
          compared-MayStop (with_bin m o d o.dest_path p) p.others.source old v
            (sym (rw (n, s, e) refl) ∙ h) c
    ]
  ]

  -- The destination holds a copy of the source with the same sum.
  pub record IsCopied (q : Plan (Host M)) : Type 0 where
    new : Bytes
    source_is : q.others.source ≡ some new
    dest_is : q.others.dest ≡ some (d.copy new)
    same : text_eq (d.sum new) (d.sum (d.copy new)) ≡ true

  copied-closed :
      (p : Plan (Host M)) (new : Bytes)
      → d.copies ≡ true
      → d.readable ≡ true
      → text_eq (d.sum new) (d.sum (d.copy new)) ≡ true
      → copied m o d p (some new) ≡ (with_dest m o d (d.copy new) p, none)
  copied-closed p new k t g = rw (k, t, g) refl

  copied-IsCopied :
      (p q : Plan (Host M)) (source : Option Bytes)
      → p.others.source ≡ source
      → copied m o d p source ≡ (q, none)
      → IsCopied q
  copied-IsCopied p q none e h = ground (arith, h)
  copied-IsCopied p q (some new) e h = elim (Bool-cases d.copies) [
    | inr f ↦ ground (arith, h, f)
    | inl k ↦ elim (Bool-cases d.readable) [
      | inr f ↦ ground (arith, h, k, f)
      | inl t ↦ elim (Bool-cases (text_eq (d.sum new) (d.sum (d.copy new)))) [
        | inr f ↦ ground (arith, h, k, t, f)
        | inl g ↦
            let same = sym h ∙ copied-closed p new k t g in
            record {
              new = new;
              source_is = ap (λ r. r.0.others.source) same ∙ e;
              dest_is = ap (λ r. r.0.others.dest) same;
              same = g;
            }
      ]
    ]
  ]

  then_copy-IsCopied :
      (q : Plan (Host M)) (r : Plan (Host M) × Option Err)
      → then_copy m o d r ≡ (q, none)
      → IsCopied q
  then_copy-IsCopied q (p, some e) h = ground (arith, h)
  then_copy-IsCopied q (p, none) h = copied-IsCopied p q p.others.source refl h

  IsCopied-IsDone :
      (q : Plan (Host M))
      → o.no_copy ≡ false
      → d.same_file ≡ false
      → d.readable ≡ true
      → IsCopied q
      → IsDone q
  unfolding check_binary
  IsCopied-IsDone q n s t c = (
    record { condition = satisfied; detail = "%s is already this exact binary" },
    rw (n, s, c.source_is, c.dest_is, t, c.same) refl,
    refl,
  )

  -- Where `Apply` of the step returns no error, and the destination can be read, a second check is satisfied.
  pub apply_binary-IsDone :
      (p q : Plan (Host M)) → d.readable ≡ true → apply_binary m o d p ≡ (q, none) → IsDone q
  unfolding apply_binary check_binary
  apply_binary-IsDone p q t h = elim (Bool-cases o.no_copy) [
    | inl n ↦
        (record { condition = satisfied; detail = "registering %s where it is" }, rw n refl, refl)
    | inr n ↦ elim (Bool-cases d.same_file) [
      | inl s ↦ (
        record { condition = satisfied; detail = "%s is already the installed binary" },
        rw (n, s) refl,
        refl,
      )
      | inr s ↦ elim (Bool-cases d.makes_dir) [
        | inr f ↦ ground (arith, h, n, s, f)
        | inl k ↦
            IsCopied-IsDone q n s t
              (then_copy-IsCopied q (stop_for_replace m o d p) (sym (rw (n, s, k) refl) ∙ h))
      ]
    ]
  ]
