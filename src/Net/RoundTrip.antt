-- ===== src/Net/RoundTrip.antt =====
-- The text of an address, as `netaccept` prints it, is read by `parseip`.
use libtask_annotation.Base.{
  ℕ, suc, ◌+◌, ◌-◌, ◌/◌, ◌%◌, ◌^◌, ◌≤◌, ◌<◌, ◌≡◌, refl, ap, sym, ◌∙◌, true, false, Option, none,
  some, List, [], ◌∷◌, ◌++◌, arith, length, length-append, ltb, leb, ◌==◌, if◌then◌else◌, Text,
  codes, Bool-cases, inl, inr, append-nil, append_assoc, take, repeat,
}
use libtask_annotation.Print.{
  Arg, word, plain, no_flags, printed, snprint, vsnprint, flag, show_verb, show_number, put,
  field_len, shown_len,
}
use libtask_annotation.Print.Number.{number_text, magnitude, number_arg}
use libtask_annotation.Print.Buffer.{field}
use libtask_annotation.Print.Render.{render, follow}
use libtask_annotation.Print.Bounds.{vseprint-render}
use libtask_annotation.Net.Dial.{ip_format, ip_args}
use libtask_annotation.Net.Strtoul.{strtoul}
use libtask_annotation.Net.Parseip.{Ip, skip_dot, parse_fields, at_or, to_ip, by_class, parseip}
use libtask_annotation.Net.Decimal.{byte_text, luv_text-byte, Stops, strtoul-byte}

-- Four bytes.
pub record IsIp (ip : Ip) : Type 0 where
  pub b0 : ip.b0 < 256
  pub b1 : ip.b1 < 256
  pub b2 : ip.b2 < 256
  pub b3 : ip.b3 < 256

-- The decimal numbers of the bytes, with dots.
unfoldable pub dotted : Ip → Text
dotted ip =
    byte_text ip.b0
    ++ b'.' ∷ (byte_text ip.b1 ++ b'.' ∷ (byte_text ip.b2 ++ b'.' ∷ byte_text ip.b3))

abbrev add : ℕ → Option (List ℕ) → Option (List ℕ)
add x none = none
add x (some xs) = some (x ∷ xs)

byte_text-cons : (n : ℕ) (s : Text) → (c : ℕ) × ((t : Text) × (byte_text n ++ s ≡ c ∷ t))
unfolding byte_text
byte_text-cons n s = elim (Bool-cases (ltb n 10)) [
  | inl one ↦ (b'0' + n, (s, rw one refl))
  | inr more ↦ elim (Bool-cases (ltb n 100)) [
    | inl two ↦ (b'0' + n / 10, ((b'0' + n % 10) ∷ s, rw (more, two) refl))
    | inr three ↦
        (b'0' + n / 100, ((b'0' + n / 10 % 10) ∷ (b'0' + n % 10) ∷ s, rw (more, three) refl))
  ]
]

-- A round of the loop, once `strtoul` has returned.
abbrev field_step : (left : ℕ) → ℕ × Text → Option (List ℕ)
field_step left r =
    if leb 256 (r.0 % 2 ^ 32)
    then none
    else elim (skip_dot r.1) [ none ↦ none | some t ↦ add (r.0 % 2 ^ 32) (parse_fields left t) ]

field_step_lem :
    (left n : ℕ) (rest t : Text)
    → n < 256
    → skip_dot rest ≡ some t
    → field_step left (n, rest) ≡ add n (parse_fields left t)
field_step_lem left n rest t lt dot =
    let small : n % 2 ^ 32 ≡ n = omega arith in
    let fits : leb 256 (n % 2 ^ 32) ≡ false = ground arith in
    rw (fits, dot) (ap (λ (k : ℕ). add k (parse_fields left t)) small)

parse_fields-cons :
    (left c : ℕ) (s : Text) → parse_fields (suc left) (c ∷ s) ≡ field_step left (strtoul (c ∷ s))
unfolding parse_fields
parse_fields-cons left c s = refl

parse_fields-byte :
    (left n : ℕ) (s t : Text)
    → n < 256
    → Stops s
    → skip_dot s ≡ some t
    → parse_fields (suc left) (byte_text n ++ s) ≡ add n (parse_fields left t)
parse_fields-byte left n s t lt stops dot =
    let (c, (u, e)) = byte_text-cons n s in
    ap (parse_fields (suc left)) e
    ∙ parse_fields-cons left c u
    ∙ ap (field_step left) (ap strtoul (sym e) ∙ strtoul-byte n s lt stops)
    ∙ field_step_lem left n s t lt dot

by_class_four : (ip : Ip) → by_class 4 ip ≡ some ip
unfolding by_class
by_class_four ip = elim (Bool-cases (leb (ip.b0 / 64) 1)) [
  | inl low ↦ rw low refl
  | inr high ↦ elim (Bool-cases (ip.b0 / 64 == 2)) [
    | inl two ↦ rw (high, two) refl
    | inr three ↦ rw (high, three) refl
  ]
]

parse_fields-dotted :
    (ip : Ip) → IsIp ip → parse_fields 4 (dotted ip) ≡ some (ip.b0 ∷ ip.b1 ∷ ip.b2 ∷ ip.b3 ∷ [])
unfolding dotted
parse_fields-dotted ip v =
    let end : parse_fields 0 [] ≡ some [] = unfold parse_fields in refl in
    let d = byte_text ip.b3 in
    let c = byte_text ip.b2 ++ b'.' ∷ d in
    let b = byte_text ip.b1 ++ b'.' ∷ c in
    parse_fields-byte 3 ip.b0 (b'.' ∷ b) b v.b0 refl (unfold skip_dot in refl)
    ∙ ap (add ip.b0) (
        parse_fields-byte 2 ip.b1 (b'.' ∷ c) c v.b1 refl (unfold skip_dot in refl)
        ∙ ap (add ip.b1) (
            parse_fields-byte 1 ip.b2 (b'.' ∷ d) d v.b2 refl (unfold skip_dot in refl)
            ∙ ap (add ip.b2) (
                ap (parse_fields 1) (sym (append-nil d))
                ∙ parse_fields-byte 0 ip.b3 [] [] v.b3 tt (unfold skip_dot in refl)
                ∙ ap (add ip.b3) end)))

-- parseip reads the four decimal numbers below 256 of an address, with dots between them, as
-- this address, whatever the stack held.
pub parseip-dotted : (junk ip : Ip) → IsIp ip → parseip junk (dotted ip) ≡ some ip
unfolding parseip to_ip at_or
parseip-dotted junk ip v = rw (parseip, parse_fields-dotted ip v) (by_class_four ip)

length-byte_text : (n : ℕ) → length (byte_text n) ≤ 3
unfolding byte_text
length-byte_text n = ground arith

pub length-dotted : (ip : Ip) → length (dotted ip) ≤ 15
unfolding dotted
length-dotted ip =
    let d = byte_text ip.b3 in
    let c = byte_text ip.b2 ++ b'.' ∷ d in
    let b = byte_text ip.b1 ++ b'.' ∷ c in
    rw
      (
        length-append (byte_text ip.b0) (b'.' ∷ b),
        length-append (byte_text ip.b1) (b'.' ∷ c),
        length-append (byte_text ip.b2) (b'.' ∷ d),
      )
      (omega (
        arith,
        length-byte_text ip.b0,
        length-byte_text ip.b1,
        length-byte_text ip.b2,
        length-byte_text ip.b3,
      ))

take-all : (s : Text) → take (length s) s ≡ s
unfolding take
take-all [] = refl
take-all (c ∷ s) = ap (λ (t : Text). c ∷ t) (take-all s)

field-whole : (room : ℕ) (s : Text) → length s < room → field room s 0 false ≡ s
unfolding field field_len shown_len repeat
field-whole room s lt =
    let none : ltb (length s) 0 ≡ false = ground arith in
    let fits : leb room (length s) ≡ false = ground arith in
    let same : ltb (length s) (length s) ≡ false = ground arith in
    let some : (room == 0) ≡ false = ground arith in
    let nil : length s - length s ≡ 0 = omega arith in rw (none, fits, same, some, nil) (take-all s)

number_text-byte : (n : ℕ) → n < 256 → number_text 10 no_flags n ≡ byte_text n
unfolding number_text
number_text-byte n lt =
    let e : magnitude no_flags (number_arg no_flags n) ≡ n =
      unfold magnitude number_arg in ground arith in
    rw e (luv_text-byte n lt)

-- `%d` of a byte prints its text.
render-byte :
    (errstr fmt : Text) (n : ℕ) (args : List Arg) (room : ℕ)
    → n < 256
    → 3 < room
    → render errstr plain (b'%' ∷ b'd' ∷ fmt) (word n ∷ args) room
      ≡ follow (byte_text n) (render errstr plain fmt args (room - length (byte_text n)))
unfolding render flag show_verb show_number
render-byte errstr fmt n args room lt more =
    let e : ltb 1 room ≡ true = ground arith in
    let len = length-byte_text n in
    rw (render, e, number_text-byte n lt, field-whole room (byte_text n) (omega arith)) refl

render-dot :
    (errstr fmt : Text) (args : List Arg) (room : ℕ)
    → 1 < room
    → render errstr plain (b'.' ∷ fmt) args room
      ≡ follow (b'.' ∷ []) (render errstr plain fmt args (room - 1))
unfolding render
render-dot errstr fmt args room more =
    let e : ltb 1 room ≡ true = ground arith in rw (render, e) refl

-- The arguments of `netaccept`.
follow-append : (s t : Text) (o : Option Text) → follow s (follow t o) ≡ follow (s ++ t) o
follow-append s t none = refl
follow-append s t (some u) = ap (λ (x : Text). some x) (sym (append_assoc s t u))

-- A number and the dot behind it.
render-field :
    (errstr fmt : Text) (n : ℕ) (args : List Arg) (room : ℕ)
    → n < 256
    → 4 < room
    → render errstr plain (b'%' ∷ b'd' ∷ b'.' ∷ fmt) (word n ∷ args) room
      ≡ follow
          (byte_text n)
          (follow (b'.' ∷ []) (render errstr plain fmt args (room - length (byte_text n) - 1)))
render-field errstr fmt n args room lt more =
    render-byte errstr (b'.' ∷ fmt) n args room lt (omega arith)
    ∙ ap (follow (byte_text n)) (
        render-dot errstr fmt args (room - length (byte_text n))
          (omega (arith, length-byte_text n)))

-- The text that `netaccept` prints, in 16 bytes or more.
render-ip :
    (errstr : Text) (ip : Ip) (room : ℕ)
    → IsIp ip
    → 15 < room
    → render errstr plain ip_format (ip_args ip) room ≡ some (dotted ip)
unfolding dotted
render-ip errstr ip room v more =
    let l0 = length-byte_text ip.b0 in
    let l1 = length-byte_text ip.b1 in
    let l2 = length-byte_text ip.b2 in
    let room1 = room - length (byte_text ip.b0) - 1 in
    let room2 = room1 - length (byte_text ip.b1) - 1 in
    let room3 = room2 - length (byte_text ip.b2) - 1 in
    let last : render errstr plain [] [] (room3 - length (byte_text ip.b3)) ≡ some [] =
      unfold render in refl in
    render-field errstr (codes "%d.%d.%d") ip.b0 (word ip.b1 ∷ word ip.b2 ∷ word ip.b3 ∷ []) room
      v.b0 (omega arith)
    ∙ ap (λ (o : Option Text). follow (byte_text ip.b0) (follow (b'.' ∷ []) o))
        (render-field errstr (codes "%d.%d") ip.b1 (word ip.b2 ∷ word ip.b3 ∷ []) room1 v.b1
            (omega arith)
          ∙ ap (λ (o : Option Text). follow (byte_text ip.b1) (follow (b'.' ∷ []) o))
              (render-field errstr (codes "%d") ip.b2 (word ip.b3 ∷ []) room2 v.b2 (omega arith)
                ∙ ap (λ (o : Option Text). follow (byte_text ip.b2) (follow (b'.' ∷ []) o))
                    (render-byte errstr [] ip.b3 [] room3 v.b3 (omega arith)
                      ∙ ap (follow (byte_text ip.b3)) last
                      ∙ ap (λ (t : Text). some t) (append-nil (byte_text ip.b3)))))

-- `snprint(server, 16, "%d.%d.%d.%d", ...)` of the bytes of an address leaves its four decimal numbers,
-- with dots and a NUL, uncut.
pub snprint-dotted :
    (errstr : Text) (m : ℕ → ℕ) (server : ℕ) (ip : Ip)
    → IsIp ip
    → snprint errstr m server 16 ip_format (ip_args ip)
      ≡ printed (put m server (dotted ip ++ 0 ∷ []))
unfolding snprint vsnprint
snprint-dotted errstr m server ip v =
    let room : server + 16 - server ≡ 16 = omega arith in
    vseprint-render errstr m server (server + 16) ip_format (ip_args ip) (omega arith)
    ∙ rw (room, render-ip errstr ip 16 v (omega arith)) refl
