-- ===== src/WriteSpool/Tests.antt =====
-- Runs of a spool of numbers, of which `{`, so many digits 1 and `}` are the text.
use mathlib.Core.List.{Perm}
use buy_not_buy_com.Common.{
  ℕ, zero, suc, ◌≡◌, refl, Bool, true, false, Option, some, none, List, [], ◌∷◌, ◌++◌, length, ◌==◌,
  arith, if◌then◌else◌,
}
use buy_not_buy_com.WriteSpool.{
  Codec, SpoolOptions, WriteSpool, durable, failed_after, empty_spool, line_of, contents_of,
  create_write_spool, append,
}
use buy_not_buy_com.WriteSpool.Lines.{IsInline}
use buy_not_buy_com.WriteSpool.Reopen.{IsCodec, create_write_spool-contents}
use buy_not_buy_com.WriteSpool.Durable.{
  SpoolCall, append_call, confirm_call, rotate_call, compact_call, restart, run_spool, step_spool,
  accepted, run_spool-durable,
}
use buy_not_buy_com.WriteSpool.Loss.{append_past_bound}

abbrev digits : ℕ → List ℕ
digits zero = b'}' ∷ []
digits (suc n) = b'1' ∷ digits n

abbrev one_more : Option ℕ → Option ℕ
one_more none = none
one_more (some n) = some (suc n)

abbrev is_end : List ℕ → Bool
is_end [] = true
is_end (c ∷ cs) = false

abbrev count_digits : List ℕ → Option ℕ
count_digits [] = none
count_digits (c ∷ cs) =
    let rest = one_more (count_digits cs) in
    if c == b'}' then (if is_end cs then some 0 else none) else if c == b'1' then rest else none

abbrev parse : List ℕ → Option ℕ
parse [] = none
parse (c ∷ cs) = if c == b'{' then count_digits cs else none

abbrev codec : Codec ℕ
codec = record { encode = λ n. b'{' ∷ digits n; decode = parse }

count-digits : (n : ℕ) → count_digits (digits n) ≡ some n
count-digits zero = refl
count-digits (suc n) = ground (arith, count-digits n)

digits-IsInline : (n : ℕ) → IsInline (digits n)
digits-IsInline zero = (ground arith, tt)
digits-IsInline (suc n) = (ground arith, digits-IsInline n)

codec-IsCodec : IsCodec codec
codec-IsCodec = record {
  round_trip = count-digits;
  inline = λ n. (ground arith, digits-IsInline n);
  filled = λ n h. cc h;
}

abbrev options : SpoolOptions ℕ
options = record { max_bytes = 20; enabled = true; market_of = λ n. "btc" }

abbrev calls : List (SpoolCall ℕ)
calls =
    append_call 1 true durable
    ∷ append_call 2 true durable
    ∷ rotate_call
    ∷ append_call 3 true (failed_after 0)
    ∷ confirm_call
    ∷ restart
    ∷ compact_call true
    ∷ []

queue_after : (run_spool codec options (empty_spool, []) calls).0.entries ≡ 1 ∷ 2 ∷ []
unfolding run_spool step_spool create_write_spool
queue_after = refl

create_write_spool-contents_example :
    create_write_spool codec options true (some (contents_of codec (4 ∷ 2 ∷ [])))
    ≡ record empty_spool {
      entries = 4 ∷ 2 ∷ [];
      file_bytes = length (contents_of codec (4 ∷ 2 ∷ []));
    }
create_write_spool-contents_example =
    create_write_spool-contents codec codec-IsCodec options (4 ∷ 2 ∷ []) refl

run_spool-durable_example :
    let (s, file) = run_spool codec options (empty_spool, []) calls in
    let t = create_write_spool codec options true (some file) in
    (gone : List ℕ) × (older : List ℕ) × Perm t.entries (gone ++ s.entries)
    × Perm (accepted codec options (empty_spool, []) calls) (older ++ t.entries)
    × (t.torn ≡ 0)
run_spool-durable_example =
    run_spool-durable codec options codec-IsCodec refl calls
      (tt, (tt, (tt, (refl, (tt, (tt, (tt, tt)))))))

abbrev full : WriteSpool ℕ
full = record empty_spool { entries = 1 ∷ 2 ∷ 3 ∷ []; file_bytes = 15 }

append_past_bound_example :
    let (t, file', done) =
      append codec options 4 true durable full (contents_of codec full.entries) in
    (t.entries ≡ 4 ∷ []) × (t.evicted ≡ 3) × (file' ≡ line_of codec 4) × (done ≡ true)
unfolding empty_spool line_of
append_past_bound_example =
    append_past_bound codec options 4 full (contents_of codec full.entries) refl refl (omega arith)

abbrev fragment : List ℕ
fragment = b'{' ∷ b'1' ∷ []

abbrev torn_file : List ℕ
unfolding contents_of
torn_file = contents_of codec (1 ∷ []) ++ fragment
