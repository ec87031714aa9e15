-- ===== src/Agent/FileBrowser/Laws.antt =====
-- Which files are listed and read, and which part of a file.
use aerodocs.Messages.{FileReadResponse, ℤ, pos, negsuc}
use aerodocs.Paths.{dot_dot, slash, is_abs, clean, base}
use aerodocs.Agent.FileBrowser.{
  is_blocked_path, validate_path, OpenFile, FileSystem, clamp_limit, compute_tail_offset,
  detect_mime, resolve_and_validate_symlink, list_dir, read_open, read_file, max_read_size,
}
use aerodocs.Base.{
  ℕ, zero, suc, ◌-◌, ◌≤◌, ◌≡◌, refl, ◌≢◌, ◌⊎◌, inl, inr, Bool, true, false, ◌&&◌, none, some, [],
  ◌∷◌, ◌++◌, arith, ltb, Option-cases, returns, raises, length, take, drop, length-drop, Bytes,
  text_eq_iff, has_prefix, contains,
}

-- The path that was asked for, and the file that was opened for it.
pub record Opened (fs : FileSystem) (path resolved : Bytes) : Type 0 where
  pub straight : contains path dot_dot ≡ false
  pub absolute : is_abs (clean path) ≡ true
  pub unblocked : is_blocked_path (clean path) ≡ false
  pub target : fs.eval_symlinks path ≡ some resolved
  pub target_unblocked : is_blocked_path (clean resolved) ≡ false
  pub inside : (resolved ≡ clean path) ⊎ (has_prefix resolved (clean path ++ slash ∷ []) ≡ true)

valid :
    (path : Bytes)
    → validate_path path ≡ none
    → (contains path dot_dot ≡ false)
      × (is_abs (clean path) ≡ true)
      × (is_blocked_path (clean path) ≡ false)
unfolding validate_path
valid path e = ground arith

refused : (path message : Bytes) → validate_path path ≡ some message → message ≢ []
unfolding validate_path
refused path message e = ground arith

module _ (fs : FileSystem) where
  resolve-Opened :
      (path resolved : Bytes)
      → validate_path path ≡ none
      → resolve_and_validate_symlink fs path ≡ returns resolved
      → Opened fs path resolved
  unfolding resolve_and_validate_symlink
  resolve-Opened path resolved good found =
      let (straight, absolute, unblocked) = valid path good in
      elim (Option-cases (fs.eval_symlinks path)) [
        | inl gone ↦ absurd (ground (arith, gone, found))
        | inr (r, at) ↦ elim (Option-cases (validate_path r)) [
          | inr (message, bad) ↦ absurd (ground (arith, at, bad, found))
          | inl fine ↦
              let same : r ≡ resolved = ground (arith, at, fine, found) in
              let inside : (r ≡ clean path) ⊎ (has_prefix r (clean path ++ slash ∷ []) ≡ true) =
                ground (arith, at, fine, found, text_eq_iff r (clean path)) in
              rw (← same) (record {
                straight = straight;
                absolute = absolute;
                unblocked = unblocked;
                target = at;
                target_unblocked = (valid r fine).2;
                inside = inside;
              })
        ]
      ]

  resolve-refused :
      (path message : Bytes) → resolve_and_validate_symlink fs path ≡ raises message → message ≢ []
  unfolding resolve_and_validate_symlink
  resolve-refused path message e = elim (Option-cases (fs.eval_symlinks path)) [
    | inl gone ↦ ground (arith, gone, e)
    | inr (r, at) ↦ elim (Option-cases (validate_path r)) [
      | inr (m, bad) ↦ ground (arith, at, bad, e)
      | inl fine ↦ ground (arith, at, fine, e)
    ]
  ]

  resolve-cases :
      (path : Bytes)
      → ((m : Bytes) × (resolve_and_validate_symlink fs path ≡ raises m))
        ⊎ ((r : Bytes) × (resolve_and_validate_symlink fs path ≡ returns r))
  resolve-cases path =
      elim (resolve_and_validate_symlink fs path)
        as (λ o. ((m : Bytes) × (o ≡ raises m)) ⊎ ((r : Bytes) × (o ≡ returns r))) [
          | raises m ↦ inl (m, refl)
          | returns r ↦ inr (r, refl)
        ]

  -- A directory is listed with an error, or the directory that is read is the one that was asked for
  -- or lies below it, and neither path is blocked.
  pub list_dir-Unrestricted :
      (path : Bytes)
      → ((list_dir fs path).error ≢ []) ⊎ ((resolved : Bytes) × Opened fs path resolved)
  unfolding list_dir
  list_dir-Unrestricted path = elim (Option-cases (validate_path path)) [
    | inr (m, bad) ↦ inl (rw (bad, list_dir) (refused path m bad))
    | inl good ↦ elim (resolve-cases path) [
      | inl (m, bad) ↦ inl (rw (good, bad, list_dir) (resolve-refused path m bad))
      | inr (r, found) ↦ inr (r, resolve-Opened path r good found)
    ]
  ]

  -- A response with the content of a file that was opened under a path.
  pub record Shows (resolved : Bytes) (offset limit : ℤ) (out : FileReadResponse) : Type 0 where
    pub file : OpenFile
    pub opened : fs.open_file resolved ≡ some file
    pub size : ℕ
    pub regular : file.stat ≡ some (false, size)
    pub told : out.total_size ≡ size
    pub read :
        file.read_full (compute_tail_offset offset (clamp_limit limit) size) (clamp_limit limit)
        ≡ some out.content

-- An open file that holds `content`, and that reads as documented.
pub record Holds (f : OpenFile) (content : Bytes) : Type 0 where
  pub regular : f.stat ≡ some (false, length content)
  pub moves : (n : ℕ) → f.seeks n ≡ true
  pub reads : (start limit : ℕ) → f.read_full start limit ≡ some (take limit (drop start content))

take_all : (n : ℕ) (xs : Bytes) → length xs ≤ n → take n xs ≡ xs
take_all zero [] h = refl
take_all zero (x ∷ xs) h = absurd (ground arith)
take_all (suc n) [] h = refl
take_all (suc n) (x ∷ xs) h = rw (take_all n xs (omega arith)) refl

tail_start : (n limit size : ℕ) → compute_tail_offset (negsuc n) limit size ≡ size - limit
unfolding compute_tail_offset
tail_start n limit size = ground arith

and_false : (b : Bool) → (b && false) ≡ false
and_false true = refl
and_false false = refl

clamp_limit-le : (limit : ℤ) → clamp_limit limit ≤ max_read_size
unfolding clamp_limit
clamp_limit-le (negsuc n) = omega arith
clamp_limit-le (pos n) = ground arith

read_open_tail :
    (fs : FileSystem) (to_lower : Bytes → Bytes) (path content : Bytes) (n limit : ℕ) (f : OpenFile)
    → Holds f content
    → read_open fs to_lower path (negsuc n) limit f ≡ record {
      request_id = [];
      content = drop (length content - limit) content;
      total_size = length content;
      mime_type = detect_mime to_lower (base path);
      error = [];
    }
unfolding read_open
read_open_tail fs to_lower path content n limit f holds =
    let start = length content - limit in
    let all : take limit (drop start content) ≡ drop start content =
      take_all limit (drop start content) (omega (arith, length-drop start content)) in
    rw
      (
        holds.regular,
        tail_start n limit (length content),
        holds.moves start,
        and_false (ltb 0 start),
        holds.reads start limit,
        all,
      )
      refl

-- A read with a negative offset of a file that is found and reads as documented gives the end of the
-- file: its last bytes, as many as the limit, which is at most 1 MB, or all of them; with the size.
pub read_file_tail :
    (fs : FileSystem) (to_lower : Bytes → Bytes) (path resolved content : Bytes) (n : ℕ) (limit : ℤ)
    (f : OpenFile)
    → validate_path path ≡ none
    → resolve_and_validate_symlink fs path ≡ returns resolved
    → fs.open_file resolved ≡ some f
    → Holds f content
    → let out = read_file fs to_lower path (negsuc n) limit in
      (out.error ≡ [])
      × (out.content ≡ drop (length content - clamp_limit limit) content)
      × (out.total_size ≡ length content)
      × (clamp_limit limit ≤ max_read_size)
unfolding read_file
read_file_tail fs to_lower path resolved content n limit f good found opened holds =
    let value = read_open_tail fs to_lower path content n (clamp_limit limit) f holds in
    rw (good, found, opened, value, read_file) (refl, refl, refl, clamp_limit-le limit)
