-- ===== src/WriteSpool/Durable.antt =====
-- What survives a crash: over any calls and restarts, the file holds every entry of the queue.
use mathlib.Core.List.{append_assoc, append-nil, Perm, perm_append_singleton}
use mathlib.Core.List.Perm
use mathlib.Core.Path.{subst}
use buy_not_buy_com.Common.{
  ℕ, ◌+◌, ◌≡◌, refl, sym, ap, ◌∙◌, Bool, true, false, not, ◌||◌, some, List, [], ◌∷◌, ◌++◌, All,
  length, ltb, length-append, arith, Bool-cases, if◌then◌else◌, inl, inr,
}
use buy_not_buy_com.WriteBuffer.{tally}
use buy_not_buy_com.WriteSpool.{
  Codec, SpoolOptions, WriteSpool, Written, durable, failed_after, line_of, contents_of, rewrite,
  shift, empty_spool, create_write_spool, evict_spooled, make_room, write_line, append, confirm,
  drop_oldest, rotate, compact, rest_of, rotated,
}
use buy_not_buy_com.WriteSpool.Reopen.{IsCodec, create_write_spool-contents}

pub data SpoolCall (A : Type 0) : Type 0 where
  append_call : A → Bool → Written → SpoolCall A
  confirm_call drop_call rotate_call restart : SpoolCall A
  compact_call : Bool → SpoolCall A

-- A failed write of the call leaves no part of its line behind.
abbrev pub IsWhole : {A : Type 0} → SpoolCall A → Type 0
IsWhole (append_call e r (failed_after n)) = n ≡ 0
IsWhole _ = Unit

module _ {A : Type 0} (codec : Codec A) (o : SpoolOptions A) where
  abbrev drop_flag : WriteSpool A × List ℕ × Bool → WriteSpool A × List ℕ
  drop_flag (s, file, done) = (s, file)

  unfoldable pub step_spool : WriteSpool A × List ℕ → SpoolCall A → WriteSpool A × List ℕ
  unfolding append confirm drop_oldest rotate compact create_write_spool
  step_spool (s, file) (append_call e r w) = drop_flag (append codec o e r w s file)
  step_spool (s, file) confirm_call = (confirm codec s, file)
  step_spool (s, file) drop_call = (drop_oldest codec s, file)
  step_spool (s, file) rotate_call = (rotate codec s, file)
  step_spool (s, file) restart = (create_write_spool codec o true (some file), file)
  step_spool (s, file) (compact_call r) = drop_flag (compact codec r s file)

  unfoldable pub run_spool : WriteSpool A × List ℕ → List (SpoolCall A) → WriteSpool A × List ℕ
  run_spool p [] = p
  run_spool p (c ∷ cs) = run_spool (step_spool p c) cs

  -- The entry of an append that answered `true`.
  abbrev pub taken : WriteSpool A × List ℕ → SpoolCall A → List A
  taken (s, file) (append_call e r w) =
      let (t, file', done) = append codec o e r w s file in if done then e ∷ [] else []
  taken p c = []

  -- The entries that the spool accepted over some calls.
  unfoldable pub accepted : WriteSpool A × List ℕ → List (SpoolCall A) → List A
  accepted p [] = []
  accepted p (c ∷ cs) = taken p c ++ accepted (step_spool p c) cs

  -- The file is whole lines of `written`, which are the queue and those that have left it; with the ones
  -- that have left the file too, these are the entries accepted so far.
  pub record IsBacked (s : WriteSpool A) (file : List ℕ) (seen : List A) : Type 0 where
    pub written : List A
    pub gone : List A
    pub forgotten : List A
    pub known : Perm seen (forgotten ++ written)
    pub whole : file ≡ contents_of codec written
    pub holds : Perm written (gone ++ s.entries)
    pub sized : s.file_bytes ≡ length file

  contents_of-snoc :
      (es : List A) (e : A)
      → contents_of codec (es ++ e ∷ []) ≡ contents_of codec es ++ line_of codec e
  unfolding contents_of
  contents_of-snoc [] e = append-nil (line_of codec e)
  contents_of-snoc (x ∷ xs) e =
      ap (λ r. line_of codec x ++ r) (contents_of-snoc xs e)
      ∙ sym (append_assoc (line_of codec x) (contents_of codec xs) (line_of codec e))

  -- The loop drops a prefix of the queue.
  evict_spooled-entries :
      (n : ℕ) (es : List A) (s : WriteSpool A)
      → (lost : List A) × (es ≡ lost ++ (evict_spooled codec o n es s).entries)
  unfolding evict_spooled
  evict_spooled-entries n [] s = ([], refl)
  evict_spooled-entries n (e ∷ es) s = elim (Bool-cases (ltb o.max_bytes (s.file_bytes + n))) [
    | inl over ↦
        let (lost, same) = evict_spooled-entries n es (record s {
          evicted = s.evicted + 1;
          evicted_by_market = tally (o.market_of e) s.evicted_by_market;
        }) in
        (e ∷ lost, rw over (ap (◌∷◌ e) same))
    | inr under ↦ ([], rw under)
  ]

  rewrite-IsBacked :
      (r : Bool) (s : WriteSpool A) (file : List ℕ) (seen : List A)
      → IsBacked s file seen
      → let (t, file', done) = rewrite codec r s file in IsBacked t file' seen
  unfolding rewrite
  rewrite-IsBacked true s file seen h = record {
    written = s.entries;
    gone = [];
    forgotten = h.forgotten ++ h.gone;
    known =
        subst (Perm seen) (sym (append_assoc h.forgotten h.gone s.entries))
          (Perm.trans h.known (Perm.append_left h.forgotten h.holds));
    whole = refl;
    holds = Perm.refl s.entries;
    sized = refl;
  }
  rewrite-IsBacked false s file seen h = record {
    written = h.written;
    gone = h.gone;
    forgotten = h.forgotten;
    known = h.known;
    whole = h.whole;
    holds = h.holds;
    sized = h.sized;
  }

  -- Entries may leave the queue from its front.
  IsBacked-lose :
      (s t : WriteSpool A) (file : List ℕ) (seen lost : List A)
      → s.entries ≡ lost ++ t.entries
      → t.file_bytes ≡ s.file_bytes
      → IsBacked s file seen
      → IsBacked t file seen
  IsBacked-lose s t file seen lost same bytes h = record {
    written = h.written;
    gone = h.gone ++ lost;
    forgotten = h.forgotten;
    known = h.known;
    whole = h.whole;
    holds =
        subst (Perm h.written)
          (ap (λ es. h.gone ++ es) same ∙ sym (append_assoc h.gone lost t.entries)) h.holds;
    sized = bytes ∙ h.sized;
  }

  rest_of-lost : (es : List A) → (lost : List A) × (es ≡ lost ++ rest_of es)
  rest_of-lost [] = ([], refl)
  rest_of-lost (e ∷ es) = (e ∷ [], refl)

  shift-IsBacked :
      (s : WriteSpool A) (file : List ℕ) (seen : List A)
      → IsBacked s file seen
      → IsBacked (shift codec s) file seen
  unfolding shift
  shift-IsBacked s file seen h =
      let (lost, same) = rest_of-lost s.entries in
      IsBacked-lose s (shift codec s) file seen lost same refl h

  rotated-perm : (es : List A) → Perm es (rotated es)
  rotated-perm [] = Perm.refl []
  rotated-perm (e ∷ es) = Perm.symm (perm_append_singleton e es)

  rotate-IsBacked :
      (s : WriteSpool A) (file : List ℕ) (seen : List A)
      → IsBacked s file seen
      → IsBacked (rotate codec s) file seen
  unfolding rotate
  rotate-IsBacked s file seen h = record {
    written = h.written;
    gone = h.gone;
    forgotten = h.forgotten;
    known = h.known;
    whole = h.whole;
    holds = Perm.trans h.holds (Perm.append_left h.gone (rotated-perm s.entries));
    sized = h.sized;
  }

  evict_spooled-bytes :
      (n : ℕ) (es : List A) (s : WriteSpool A)
      → (evict_spooled codec o n es s).file_bytes ≡ s.file_bytes
  unfolding evict_spooled
  evict_spooled-bytes n [] s = refl
  evict_spooled-bytes n (e ∷ es) s = ground (
    arith,
    evict_spooled-bytes n es (record s {
      evicted = s.evicted + 1;
      evicted_by_market = tally (o.market_of e) s.evicted_by_market;
    }),
  )

  make_room-IsBacked :
      (n : ℕ) (r : Bool) (s : WriteSpool A) (file : List ℕ) (seen : List A)
      → IsBacked s file seen
      → let (t, file', done) = make_room codec o n r s file in IsBacked t file' seen
  unfolding make_room
  make_room-IsBacked n r s file seen h = elim (Bool-cases (ltb o.max_bytes (s.file_bytes + n))) [
    | inl over ↦
        let (lost, same) = evict_spooled-entries n s.entries s in
        rw over (
          rewrite-IsBacked r (evict_spooled codec o n s.entries s) file seen (
            IsBacked-lose s (evict_spooled codec o n s.entries s) file seen lost same
              (evict_spooled-bytes n s.entries s) h))
    | inr under ↦ rw under h
  ]

  -- The entry of an append joins those accepted if it answered `true`.
  abbrev Backs : List A → A → WriteSpool A × List ℕ × Bool → Type 0
  Backs seen e (s, file, done) = IsBacked s file (seen ++ (if done then e ∷ [] else []))

  write_line-IsBacked :
      (e : A) (w : Written) (s : WriteSpool A) (file : List ℕ) (seen : List A)
      → IsWhole (append_call e true w)
      → IsBacked s file seen
      → Backs seen e (write_line codec e w s file)
  unfolding write_line
  write_line-IsBacked e durable s file seen clean h = record {
    written = h.written ++ e ∷ [];
    gone = h.gone;
    forgotten = h.forgotten;
    known =
        subst (Perm (seen ++ e ∷ [])) (append_assoc h.forgotten h.written (e ∷ []))
          (Perm.append_right (e ∷ []) h.known);
    whole = ap (λ f. f ++ line_of codec e) h.whole ∙ sym (contents_of-snoc h.written e);
    holds =
        subst (Perm (h.written ++ e ∷ [])) (append_assoc h.gone s.entries (e ∷ []))
          (Perm.append_right (e ∷ []) h.holds);
    sized = omega (arith, h.sized, length-append file (line_of codec e));
  }
  write_line-IsBacked e (failed_after n) s file seen clean h = record {
    written = h.written;
    gone = h.gone;
    forgotten = h.forgotten;
    known = rw append-nil h.known;
    whole = rw (clean, append-nil) h.whole;
    holds = h.holds;
    sized = rw (clean, append-nil) h.sized;
  }

  refused-Backs :
      (e : A) (s : WriteSpool A) (file : List ℕ) (seen : List A)
      → IsBacked s file seen
      → Backs seen e (s, file, false)
  refused-Backs e s file seen h = rw append-nil h

  if-Backs :
      (test : Bool) (e : A) (seen : List A) (p q : WriteSpool A × List ℕ × Bool)
      → Backs seen e p
      → Backs seen e q
      → Backs seen e (if test then p else q)
  if-Backs true e seen p q h k = h
  if-Backs false e seen p q h k = k

  append-IsBacked :
      (e : A) (r : Bool) (w : Written) (s : WriteSpool A) (file : List ℕ) (seen : List A)
      → IsWhole (append_call e true w)
      → IsBacked s file seen
      → Backs seen e (append codec o e r w s file)
  unfolding append
  append-IsBacked e r w s file seen clean h =
      let (t, file', has_room) = make_room codec o (length (line_of codec e)) r s file in
      let room = make_room-IsBacked (length (line_of codec e)) r s file seen h in
      if-Backs (not o.enabled || s.refused) e seen (s, file, false)
        (if has_room then write_line codec e w t file' else (t, file', false))
        (refused-Backs e s file seen h)
        (if-Backs has_room e seen (write_line codec e w t file') (t, file', false)
          (write_line-IsBacked e w t file' seen clean room) (refused-Backs e t file' seen room))

  compact-IsBacked :
      (r : Bool) (s : WriteSpool A) (file : List ℕ) (seen : List A)
      → IsBacked s file seen
      → let (t, file', done) = compact codec r s file in IsBacked t file' seen
  unfolding compact
  compact-IsBacked r s file seen h = elim (Bool-cases s.dirty) [
    | inl dirty ↦ simp dirty (rewrite-IsBacked r s file seen h)
    | inr clean ↦ simp clean h
  ]

  module _ (laws : IsCodec codec) (on : o.enabled ≡ true) where
    reopened :
        (s : WriteSpool A) (file : List ℕ) (seen : List A) (h : IsBacked s file seen)
        → create_write_spool codec o true (some file)
          ≡ record empty_spool { entries = h.written; file_bytes = length file }
    reopened s file seen h = rw h.whole (create_write_spool-contents codec laws o h.written on)

    restart-IsBacked :
        (s : WriteSpool A) (file : List ℕ) (seen : List A)
        → IsBacked s file seen
        → IsBacked (create_write_spool codec o true (some file)) file seen
    unfolding empty_spool
    restart-IsBacked s file seen h = rw (reopened s file seen h) (record {
      written = h.written;
      gone = [];
      forgotten = h.forgotten;
      known = h.known;
      whole = h.whole;
      holds = Perm.refl h.written;
      sized = refl;
    })

    step_spool-IsBacked :
        (s : WriteSpool A) (file : List ℕ) (seen : List A) (c : SpoolCall A)
        → IsWhole c
        → IsBacked s file seen
        → let (t, file') = step_spool (s, file) c in IsBacked t file' (seen ++ taken (s, file) c)
    unfolding step_spool
    step_spool-IsBacked s file seen (append_call e r durable) clean h =
        append-IsBacked e r durable s file seen tt h
    step_spool-IsBacked s file seen (append_call e r (failed_after n)) clean h =
        append-IsBacked e r (failed_after n) s file seen clean h
    step_spool-IsBacked s file seen confirm_call clean h =
        rw append-nil (shift-IsBacked s file seen h)
    step_spool-IsBacked s file seen drop_call clean h = rw append-nil (shift-IsBacked s file seen h)
    step_spool-IsBacked s file seen rotate_call clean h =
        rw append-nil (rotate-IsBacked s file seen h)
    step_spool-IsBacked s file seen restart clean h = rw append-nil (restart-IsBacked s file seen h)
    step_spool-IsBacked s file seen (compact_call r) clean h =
        rw append-nil (compact-IsBacked r s file seen h)

    run_spool-IsBacked :
        (cs : List (SpoolCall A)) (s : WriteSpool A) (file : List ℕ) (seen : List A)
        → All IsWhole cs
        → IsBacked s file seen
        → let (t, file') = run_spool (s, file) cs in
          IsBacked t file' (seen ++ accepted (s, file) cs)
    unfolding run_spool accepted
    run_spool-IsBacked [] s file seen clean h = rw append-nil h
    run_spool-IsBacked (c ∷ cs) s file seen (clean, later) h =
        let (t, file') = step_spool (s, file) c in
        subst (IsBacked _ _)
          (append_assoc seen (taken (s, file) c) (accepted (step_spool (s, file) c) cs))
          (run_spool-IsBacked cs t file' (seen ++ taken (s, file) c) later
            (step_spool-IsBacked s file seen c clean h))

    -- If JSON brings back what it wrote, one line to an entry, and failed writes leave nothing behind,
    -- then over any appends, removals, rotations, rewrites that succeed or fail, and restarts of an
    -- enabled spool that began with no file, a crash loses nothing and makes up nothing: start-up finds
    -- no torn line; what it reads back is every entry of the queue and some that have left the queue;
    -- and this is part of the entries whose append answered `true`, none of them more often than it was
    -- appended.
    pub run_spool-durable :
        (cs : List (SpoolCall A))
        → All IsWhole cs
        → let (s, file) = run_spool (empty_spool, []) cs in
          let t = create_write_spool codec o true (some file) in
          (gone : List A) × (older : List A) × Perm t.entries (gone ++ s.entries)
          × Perm (accepted (empty_spool, []) cs) (older ++ t.entries)
          × (t.torn ≡ 0)
    unfolding empty_spool contents_of
    run_spool-durable cs clean =
        let (s, file) = run_spool (empty_spool, []) cs in
        let h = run_spool-IsBacked cs empty_spool [] [] clean (record {
          written = [];
          gone = [];
          forgotten = [];
          known = Perm.refl [];
          whole = refl;
          holds = Perm.refl [];
          sized = refl;
        }) in
        rw (reopened s file (accepted (empty_spool, []) cs) h)
          (h.gone, h.forgotten, h.holds, h.known, refl)
