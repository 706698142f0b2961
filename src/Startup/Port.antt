-- ===== src/Startup/Port.antt =====
-- The port file can be read back.
use spoton.Prelude.{
  ℕ, zero, suc, ◌+◌, ◌/◌, ◌%◌, ◌≤◌, ◌<◌, ◌≡◌, refl, ap, sym, ◌∙◌, inl, inr, some, Bool, true, false,
  List, [], ◌∷◌, arith, take-of_length-le, length, ltb, Bool-cases, if◌then◌else◌,
}
use spoton.Env.{digits_from, strtol}
use spoton.Env.Bounds.{strtol-digit}
use spoton.Decimal.{decimal_before}
use spoton.Decimal.Read.{digits_from-decimal_before}
use spoton.Startup.{port_line, SystemCalls, Server, launch, write_port, http_start_server}

-- A text that starts with a digit.
record Digits (s : List ℕ) : Type 0 where
  first : ℕ
  rest : List ℕ
  small : first ≤ 9
  text : s ≡ (first + 48) ∷ rest

Digits-if : (b : Bool) (x y : List ℕ) → Digits x → Digits y → Digits (if b then x else y)
Digits-if true x y h k = h
Digits-if false x y h k = k

more-Digits : (f n d : ℕ) (s : List ℕ) → d ≤ 9 → Digits (decimal_before f n ((d + 48) ∷ s))
unfolding decimal_before
more-Digits zero n d s h = record { first = d; rest = s; small = h; text = refl }
more-Digits (suc f) n d s h = elim (Bool-cases (ltb n 10)) [
  | inl e ↦ rw e (record { first = n; rest = (d + 48) ∷ s; small = ground arith; text = refl })
  | inr e ↦ rw e (more-Digits f (n / 10) (n % 10) ((d + 48) ∷ s) (omega arith))
]

port_line-Digits : (port : ℕ) → Digits (port_line port)
unfolding port_line decimal_before
port_line-Digits n = elim (Bool-cases (ltb n 10)) [
  | inl e ↦ rw e (record { first = n; rest = 10 ∷ []; small = ground arith; text = refl })
  | inr e ↦ rw e (more-Digits 4 (n / 10) (n % 10) (10 ∷ []) (omega arith))
]

strtol-port_line :
    (port : ℕ)
    → port < 65536
    → strtol (port_line port)
      ≡ record { negative = false; magnitude = port; rest = 10 ∷ []; converted = true }
unfolding port_line digits_from
strtol-port_line port h =
    let t = port_line-Digits port in
    let e : digits_from 0 ((t.first + 48) ∷ t.rest) ≡ (port, 10 ∷ []) =
      ap (digits_from 0) (sym t.text) ∙ digits_from-decimal_before 5 port (10 ∷ []) (omega arith) in
    ap strtol t.text
    ∙ strtol-digit t.first t.rest t.small
    ∙ ap (λ k. record { negative = false; magnitude = k.0; rest = k.1; converted = true }) e

launch-port_file :
    (s : SystemCalls) (fd port : ℕ) → (launch s fd port).port_file ≡ write_port s port
unfolding launch
launch-port_file s fd port = elim (Bool-cases s.thread_ok) [
  | inl e ↦ simp e refl
  | inr e ↦ simp e refl
]

written :
    (s : SystemCalls) (port pf : ℕ)
    → s.open_file ≡ some pf
    → s.write_taken ≡ length (port_line port)
    → write_port s port ≡ some (port_line port)
unfolding write_port port_line
written s port pf o w =
    rw o (
      ap some
        (take-of_length-le s.write_taken (decimal_before 5 port (10 ∷ [])) (omega (arith, w))))

-- What a reader of the port file finds.
pub record Announced (port : ℕ) (v : Server) : Type 0 where
  pub text : List ℕ
  pub file : v.port_file ≡ some text
  pub read_back :
      strtol text ≡ record { negative = false; magnitude = port; rest = 10 ∷ []; converted = true }

-- Where the server's socket is bound and listens on a 16-bit port, and the port file is opened and
-- `write` takes the whole line, however long it is: `strtol` reads the file as that port, with a newline behind it.
pub http_start_server-Announced :
    (s : SystemCalls) (fd port pf : ℕ)
    → s.socket ≡ some fd
    → s.bind_ok ≡ true
    → s.listen_ok ≡ true
    → s.getsockname ≡ some port
    → port < 65536
    → s.open_file ≡ some pf
    → s.write_taken ≡ length (port_line port)
    → Announced port (http_start_server s)
unfolding http_start_server
http_start_server-Announced s fd port pf a b c d h o w = record {
  text = port_line port;
  file = rw (a, b, c, d) (launch-port_file s fd port ∙ written s port pf o w);
  read_back = strtol-port_line port h;
}
