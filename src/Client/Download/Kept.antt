-- ===== src/Client/Download/Kept.antt =====
-- What a download keeps of the file on disk and of the saved progress, and its single steps.
use telegram_mcub_go.Base.{
  ℕ, zero, suc, ◌+◌, ◌≤◌, ◌<◌, [], ◌++◌, false, Option, none, some, length, take, drop,
  if◌then◌else◌, arith, ◌≡◌, ◌≢◌, refl, sym, ap, ap₂, subst, ◌∙◌, Bool-cases, Option-cases, inl,
  inr, length-append,
}
use telegram_mcub_go.Client.Download.Slices.{
  take_eq, take-all, take-next, length-chunk, take-part, length-take-le,
}
use telegram_mcub_go.Client.Download.{
  Bytes, ResumeState, Saved, missing, saved, torn, Disk, Reply, fails, file, unexpected,
  write_chunk, Wreck, untouched, cut_off, whole, Calls, after_save, save, write, mark_complete,
  mark_progress, Outcome, open_dest,
}

-- The reply that the server gives on a file: any error, or the bytes from the offset on, at most
-- `limit` of them.
abbrev pub IsHonest : {Err : Type 0} → Bytes → ℕ → ℕ → Reply Err → Type 0
IsHonest content offset limit (fails err) = Unit
IsHonest content offset limit (file bytes) = bytes ≡ take limit (drop offset content)
IsHonest content offset limit unexpected = Unit

-- What is asked of the disk when the store holds an unfinished state, with its number of bytes.
abbrev pub Unfinished : (ℕ → Type 0) → Option Saved → Type 0
Unfinished P none = Unit
Unfinished P (some missing) = Unit
Unfinished P (some torn) = Unit
Unfinished P (some (saved state)) = if state.completed then Unit else P state.bytes_done

-- The file on disk holds the first bytes of the content, as many as an unfinished saved state says.
abbrev pub IsPartial : Bytes → Disk → Type 0
IsPartial content disk =
    Unfinished (λ n. (disk.dest ≡ take n content) × (n ≤ length content)) disk.store

-- The file on disk is the beginning of the content, and no shorter than an unfinished saved state
-- says.
abbrev pub IsAhead : Bytes → Disk → Type 0
IsAhead content disk =
    (disk.dest ≡ take (length disk.dest) content)
    × Unfinished (λ n. n ≤ length disk.dest) disk.store

-- What the result of a run says of the disk: without an error the file is complete; after a failed
-- write it may be ahead of the saved progress; with any other error a later run can take it up.
abbrev pub IsSound : {W Err : Type 0} → Bytes → Outcome W Err → Type 0
IsSound content none = ⊥
IsSound content (some (none, (disk, w))) = (disk.dest ≡ content) × IsPartial content disk
IsSound content (some (some (write_chunk err), (disk, w))) = IsAhead content disk
IsSound content (some (some _, (disk, w))) = IsPartial content disk

module _ {W Err : Type 0} (calls : Calls W Err) where
  -- A Save either writes the new state or, when it fails, leaves a file that Load refuses: no failure
  -- leaves the state before.
  abbrev pub SavesOverwrite : Type 0
  SavesOverwrite = (w : W) → (calls.write_state_file w).0 ≢ some untouched

  pub save-dest :
      (state : ResumeState) (disk : Disk) (w : W) → (save calls state disk w).0.dest ≡ disk.dest
  unfolding save
  save-dest state disk w = ground arith

  after_save-Unfinished :
      (P : ℕ → Type 0) (previous : Saved) (state : ResumeState) (failure : Option Wreck)
      → failure ≢ some untouched
      → Unfinished P (some (saved state))
      → Unfinished P (some (after_save previous state failure))
  unfolding after_save
  after_save-Unfinished P previous state none h p = p
  after_save-Unfinished P previous state (some untouched) h p = absurd (h refl)
  after_save-Unfinished P previous state (some cut_off) h p = tt
  after_save-Unfinished P previous state (some whole) h p = p

  save-Unfinished :
      (P : ℕ → Type 0) (state : ResumeState) (disk : Disk) (w : W)
      → SavesOverwrite
      → Unfinished P (some (saved state))
      → Unfinished P (save calls state disk w).0.store
  unfolding save
  save-Unfinished P state disk w overwrite p = elim (Option-cases disk.store) [
    | inl e ↦ rw (e, save) (rw e tt)
    | inr (previous, e) ↦ rw (e, save) (after_save-Unfinished P previous state _ (overwrite w) p)
  ]

  pub mark_progress-IsPartial :
      (content : Bytes) (offset : ℕ) (disk : Disk) (w : W)
      → SavesOverwrite
      → offset ≤ length content
      → disk.dest ≡ take offset content
      → IsPartial content (mark_progress calls offset disk w).0
  mark_progress-IsPartial content offset disk w overwrite h e =
      save-Unfinished _ _ disk w overwrite (save-dest _ disk w ∙ e, h)

  pub mark_complete-IsPartial :
      (content : Bytes) (offset : ℕ) (disk : Disk) (w : W)
      → SavesOverwrite
      → IsPartial content (mark_complete calls offset disk w).0
  mark_complete-IsPartial content offset disk w overwrite = save-Unfinished _ _ disk w overwrite tt

-- What the loop keeps of the file at an offset.
pub record IsAt (content : Bytes) (offset : ℕ) (disk : Disk) : Type 0 where
  pub within : offset ≤ length content
  pub written : disk.dest ≡ take offset content
  pub partial : IsPartial content disk

Unfinished-map :
    (P Q : ℕ → Type 0) (store : Option Saved)
    → ((n : ℕ) → P n → Q n)
    → Unfinished P store
    → Unfinished Q store
Unfinished-map P Q none f p = tt
Unfinished-map P Q (some missing) f p = tt
Unfinished-map P Q (some torn) f p = tt
Unfinished-map P Q (some (saved state)) f p = elim (Bool-cases state.completed) [
  | inl e ↦ rw e tt
  | inr e ↦ rw e (f state.bytes_done (subst (λ b. if b then Unit else P state.bytes_done) e p))
]

module _ (limit : ℕ) (content : Bytes) where
  pub grown :
      (offset : ℕ) (disk : Disk) (bytes : Bytes)
      → IsAt content offset disk
      → bytes ≡ take limit (drop offset content)
      → disk.dest ++ bytes ≡ take (offset + length bytes) content
  grown offset disk bytes at honest =
      ap₂ (λ xs ys. xs ++ ys) at.written honest
      ∙ take-next offset limit content
      ∙ take_eq content (ap (λ ys. offset + length ys) (sym honest))

  -- A chunk that is shorter than asked for is the last.
  pub write-last :
      (offset : ℕ) (disk : Disk) (bytes : Bytes)
      → IsAt content offset disk
      → bytes ≡ take limit (drop offset content)
      → length bytes < limit
      → disk.dest ++ bytes ≡ content
  write-last offset disk bytes at honest short =
      grown offset disk bytes at honest
      ∙ take-all _ content (
          let (k, l, m) = length-chunk offset limit content in
          let e = m (rw (sym honest) short) in let e' = ap length honest in omega arith)

  -- A chunk that a failed write has cut off.
  pub write-IsAhead :
      (offset n : ℕ) (disk : Disk) (bytes : Bytes)
      → IsAt content offset disk
      → bytes ≡ take limit (drop offset content)
      → IsAhead content (write (take n bytes) disk)
  write-IsAhead offset n disk bytes at honest =
      let q = ap₂ (λ xs ys. xs ++ ys) at.written (ap (λ ys. take n ys) honest) in
      (
        subst (λ ys. ys ≡ take (length ys) content) (sym q)
            (take-part offset limit n content at.within),
        Unfinished-map (λ m. (disk.dest ≡ take m content) × (m ≤ length content))
            (λ m. m ≤ length (disk.dest ++ take n bytes)) disk.store
            (λ m p. omega (
              arith,
              length-append disk.dest (take n bytes),
              ap length p.0,
              length-take-le m content p.1,
            ))
            at.partial,
      )

pub unfinished :
    (P : ℕ → Type 0) (store : Option Saved) (s : ResumeState)
    → Unfinished P store
    → store ≡ some (saved s)
    → s.completed ≡ false
    → P s.bytes_done
unfinished P store s p e c =
    subst (λ b. if b then Unit else P s.bytes_done) c (subst (λ o. Unfinished P o) e p)

pub open_dest-IsAt :
    (content : Bytes) (n : ℕ) (disk : Disk)
    → disk.dest ≡ take n content
    → n ≤ length content
    → IsPartial content disk
    → IsAt content n (open_dest n disk)
open_dest-IsAt content zero disk e h p = record {
  within = h;
  written = refl;
  partial =
      Unfinished-map (λ n. (disk.dest ≡ take n content) × (n ≤ length content))
        (λ n. ([] ≡ take n content) × (n ≤ length content)) disk.store (λ n q. (sym e ∙ q.0, q.1))
        p;
}
open_dest-IsAt content (suc n) disk e h p = record { within = h; written = e; partial = p }

pub restart-IsAt :
    (content : Bytes) (disk : Disk)
    → Unfinished (λ n. ⊥) disk.store
    → IsAt content 0 (open_dest 0 disk)
restart-IsAt content disk p = record {
  within = omega arith;
  written = refl;
  partial =
      Unfinished-map (λ n. ⊥) (λ n. ([] ≡ take n content) × (n ≤ length content)) disk.store
        (λ n q. absurd q) p;
}
