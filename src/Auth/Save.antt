-- ===== src/Auth/Save.antt =====
-- internal/core/auth/store.go: `Save` and `writeAndClose`, which write beside the token file and rename.
-- The files are what a crash would leave; `toml.Marshal` and the file system's answers are arguments.
use weave_adapters.Prelude.{
  ℕ, ◌≡◌, ◌⊎◌, refl, Bool, true, false, not, Option, none, some, List, [], ◌∷◌, ◌++◌, ◌&&◌, arith,
  ◌∙◌, if◌then◌else◌, All, inl, inr,
}

abbrev pub Bytes : Type 0
Bytes = List ℕ

-- 0o600
abbrev pub store_file_mode : ℕ
store_file_mode = 384

pub record File : Type 0 where
  pub content : Bytes
  pub mode : ℕ

-- the token file, and the temporary one beside it
pub record Files : Type 0 where
  pub target : Option File
  pub temporary : Option File

-- Whether each call of the file system succeeds, `removed` the deferred `os.Remove`; `part` is what a
-- failing write has written, and `first_mode` the mode that `CreateTemp` gives.
pub record Outcomes : Type 0 where
  pub created : Bool
  pub written : Bool
  pub part : Bytes
  pub synced : Bool
  pub closed : Bool
  pub chmodded : Bool
  pub renamed : Bool
  pub dir_synced : Bool
  pub removed : Bool
  pub first_mode : ℕ

-- `os.CreateTemp`
abbrev create_temporary : ℕ → Files → Files
create_temporary m fs = record fs { temporary = some (record { content = []; mode = m }) }

abbrev appended : Bytes → Option File → Option File
appended b none = none
appended b (some f) = some (record f { content = f.content ++ b })

-- `tmp.Write`, as far as it comes
abbrev write_temporary : Bytes → Files → Files
write_temporary b fs = record fs { temporary = appended b fs.temporary }

abbrev with_mode : ℕ → Option File → Option File
with_mode m none = none
with_mode m (some f) = some (record f { mode = m })

-- `os.Chmod`
abbrev chmod_temporary : Files → Files
chmod_temporary fs = record fs { temporary = with_mode store_file_mode fs.temporary }

-- `os.Rename`: whatever the temporary file is becomes the token file
abbrev rename_temporary : Files → Files
rename_temporary fs = record { target = fs.temporary; temporary = none }

-- the deferred `os.Remove`, whose failure is ignored
unfoldable pub remove_temporary : Outcomes → Files → Files
remove_temporary o fs = if o.removed then record fs { temporary = none } else fs

-- The files at each point of a run and at its end, and whether it returned no error.
pub record Trace : Type 0 where
  pub points : List Files
  pub final : Files
  pub ok : Bool

abbrev pub ends : Files → Bool → Trace
ends fs done = record { points = fs ∷ []; final = fs; ok = done }

abbrev pub and_then : Files → Trace → Trace
and_then fs t = record t { points = fs ∷ t.points }

-- the end of `Save` behind `CreateTemp`
abbrev pub closing : Outcomes → Files → Bool → Trace
closing o fs done = and_then fs (ends (remove_temporary o fs) done)

-- `writeAndClose`, `Chmod`, `Rename` and `syncDir`, on the files with the temporary one
unfoldable pub after_create : Outcomes → Bytes → Files → Trace
after_create o d fs =
    let written = write_temporary d fs in
    let chmodded = chmod_temporary written in
    if not o.written
    then closing o (write_temporary o.part fs) false
    else if not o.synced
    then closing o written false
    else if not o.closed
    then closing o written false
    else and_then written (
        if not o.chmodded
        then closing o written false
        else and_then chmodded (
            if not o.renamed
            then closing o chmodded false
            else closing o (rename_temporary chmodded) o.dir_synced))

-- `Save`, on what `toml.Marshal` gives
unfoldable pub save : Outcomes → Option Bytes → Files → Trace
save o none fs = ends fs false
save o (some d) fs =
    if not o.created
    then ends fs false
    else let created = create_temporary o.first_mode fs in
      and_then fs (and_then created (after_create o d created))

-- every call but the last one, which only cleans up
abbrev pub all_succeed : Outcomes → Bool
all_succeed o =
    o.created
    && (o.written && (o.synced && (o.closed && (o.chmodded && (o.renamed && o.dir_synced)))))

-- The token file is the old one, or the new one whole, and only its owner reads that.
abbrev pub IsOldOrNew : Files → Bytes → Files → Type 0
IsOldOrNew before d fs =
    (fs.target ≡ before.target)
    ⊎ (fs.target ≡ some (record { content = d; mode = store_file_mode }))

-- At every point of `Save`, whatever fails, the token file is the old one or the new one whole; no
-- temporary file is left where there was none, unless the call that removes it fails; and where there
-- is no error the file is the new one, and no temporary file is left.
pub record IsAtomic (o : Outcomes) (before : Files) (d : Bytes) (t : Trace) : Type 0 where
  pub whole : All (IsOldOrNew before d) t.points
  pub tidy :
      (t.final.temporary ≡ none) ⊎ ((t.final.temporary ≡ before.temporary) ⊎ (o.removed ≡ false))
  pub saved :
      (t.ok ≡ false)
      ⊎ ((t.final.target ≡ some (record { content = d; mode = store_file_mode }))
          × (t.final.temporary ≡ none))

remove_temporary-target : (o : Outcomes) (fs : Files) → (remove_temporary o fs).target ≡ fs.target
unfolding remove_temporary
remove_temporary-target o fs = ground arith

remove_temporary-tidy :
    (o : Outcomes) (fs : Files) → ((remove_temporary o fs).temporary ≡ none) ⊎ (o.removed ≡ false)
unfolding remove_temporary
remove_temporary-tidy o fs = ground arith

remove_temporary-none :
    (o : Outcomes) (fs : Files) → fs.temporary ≡ none → (remove_temporary o fs).temporary ≡ none
unfolding remove_temporary
remove_temporary-none o fs h = ground (arith, h)

module _ (o : Outcomes) (before : Files) (d : Bytes) where
  and_then-IsAtomic :
      (fs : Files) (t : Trace)
      → fs.target ≡ before.target
      → IsAtomic o before d t
      → IsAtomic o before d (and_then fs t)
  and_then-IsAtomic fs t e h = record { whole = (inl e, h.whole); tidy = h.tidy; saved = h.saved }

  failing-IsAtomic :
      (fs : Files) → fs.target ≡ before.target → IsAtomic o before d (closing o fs false)
  failing-IsAtomic fs e = record {
    whole = (inl e, (inl (remove_temporary-target o fs ∙ e), tt));
    tidy = elim (remove_temporary-tidy o fs) [ inl n ↦ inl n | inr r ↦ inr (inr r) ];
    saved = inl refl;
  }

  if-IsAtomic :
      (c : Bool) (t u : Trace)
      → IsAtomic o before d t
      → IsAtomic o before d u
      → IsAtomic o before d (if not c then t else u)
  if-IsAtomic true t u h k = k
  if-IsAtomic false t u h k = h

  renamed-IsAtomic :
      (fs : Files) (done : Bool)
      → fs.target ≡ some (record { content = d; mode = store_file_mode })
      → fs.temporary ≡ none
      → IsAtomic o before d (closing o fs done)
  renamed-IsAtomic fs done e n =
      let e' = remove_temporary-target o fs ∙ e in
      let n' = remove_temporary-none o fs n in
      record { whole = (inr e, (inr e', tt)); tidy = inl n'; saved = inr (e', n') }

  after_create-IsAtomic :
      IsAtomic o before d (after_create o d (create_temporary o.first_mode before))
  unfolding after_create
  after_create-IsAtomic =
      let fs = create_temporary o.first_mode before in
      let written = write_temporary d fs in
      let chmodded = chmod_temporary written in
      if-IsAtomic o.written _ _ (failing-IsAtomic (write_temporary o.part fs) refl) (
        if-IsAtomic o.synced _ _ (failing-IsAtomic written refl) (
          if-IsAtomic o.closed _ _ (failing-IsAtomic written refl) (
            and_then-IsAtomic written _ refl (
              if-IsAtomic o.chmodded _ _ (failing-IsAtomic written refl) (
                and_then-IsAtomic chmodded _ refl (
                  if-IsAtomic o.renamed _ _ (failing-IsAtomic chmodded refl)
                    (renamed-IsAtomic (rename_temporary chmodded) o.dir_synced refl refl)))))))

  -- An error is returned exactly where one of the calls fails.
  save-all_succeed : (save o (some d) before).ok ≡ all_succeed o
  unfolding save after_create
  save-all_succeed = ground arith

  -- Every run of `Save` is as `IsAtomic` says, and returns no error exactly where every call of the
  -- file system succeeds, that which removes the temporary file aside.
  pub save-IsAtomic :
      IsAtomic o before d (save o (some d) before) × ((save o (some d) before).ok ≡ all_succeed o)
  unfolding save
  save-IsAtomic = (
    if-IsAtomic o.created _ _
        (record { whole = (inl refl, tt); tidy = inr (inl refl); saved = inl refl })
        (and_then-IsAtomic before _ refl
          (and_then-IsAtomic (create_temporary o.first_mode before) _ refl after_create-IsAtomic)),
    save-all_succeed,
  )
