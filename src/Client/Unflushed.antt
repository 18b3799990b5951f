-- ===== src/Client/Unflushed.antt =====
-- The reads and writes of the client keep it that no close of a stream will lose bytes (client.cpp).
use link_scheduling.Prelude.{
  ℕ, zero, suc, ◌+◌, ◌-◌, ◌≡◌, refl, ◌∙◌, inl, inr, Bool, false, ◌&&◌, Option, none, some, [], ◌∷◌,
  ◌++◌, arith, min, ltb, take, drop, Bool-cases, length,
}
use link_scheduling.Prelude.Text.{Bytes}
use link_scheduling.World.{World, M}
use link_scheduling.FileIo.{getline}
use link_scheduling.Server.Put.Unflushed.{write_bytes-unflushed, if_good-unflushed}
use link_scheduling.Client.{
  recv, status_by, status_loop, read_status_line, write_out, prefix_loop, exact_by, exact_loop,
  exact_rest, recv_exact,
}

status_by-unflushed :
    (line : Bytes) (again : Bytes → M (Option (Bytes × Bytes))) (o : Option Bytes) (w : World)
    → ((l : Bytes) → (again l w).1.unflushed ≡ w.unflushed)
    → (status_by line again o w).1.unflushed ≡ w.unflushed
status_by-unflushed line again none w k = refl
status_by-unflushed line again (some []) w k = refl
status_by-unflushed line again (some (b ∷ bs)) w k =
    ground (arith, k (line ++ (getline (b ∷ bs)).0))

status_loop-unflushed :
    (fuel sock : ℕ) (line : Bytes) (w : World)
    → (status_loop fuel sock line w).1.unflushed ≡ w.unflushed
unfolding status_loop recv
status_loop-unflushed zero sock line w = refl
status_loop-unflushed (suc fuel) sock line w = elim (Bool-cases (ltb (length line) 8192)) [
  | inr long ↦ rw (long, status_loop) refl
  | inl short ↦
      let got = recv sock 4096 w in
      rw (short, status_loop)
        (status_by-unflushed line (status_loop fuel sock) got.0 got.1
          λ l. status_loop-unflushed fuel sock l got.1)
]

pub read_status_line-unflushed :
    (sock : ℕ) (w : World) → (read_status_line sock w).1.unflushed ≡ w.unflushed
unfolding read_status_line
read_status_line-unflushed sock w = status_loop-unflushed 8193 sock [] w

write_out-unflushed :
    (out : Option Bytes) (pos : ℕ) (bytes : Bytes) (w : World)
    → (write_out out pos bytes w).1.unflushed ≡ w.unflushed
unfolding write_out
write_out-unflushed none pos bytes w = refl
write_out-unflushed (some path) pos bytes w = write_bytes-unflushed path pos bytes w

prefix_loop-unflushed :
    (fuel : ℕ) (out : Option Bytes) (size : ℕ) (prefix : Bytes) (received : ℕ) (w : World)
    → (prefix_loop fuel out size prefix received w).1.unflushed ≡ w.unflushed
unfolding prefix_loop
prefix_loop-unflushed zero out size prefix received w = refl
prefix_loop-unflushed (suc fuel) out size prefix received w =
    elim (Bool-cases (ltb received size && ltb 0 (length prefix))) [
      | inr e ↦ rw (e, prefix_loop) refl
      | inl e ↦
          let chunk = min (size - received) (length prefix) in
          let wrote = write_out out received (take chunk prefix) w in
          rw (e, prefix_loop)
            (if_good-unflushed wrote.0
              (prefix_loop fuel out size (drop chunk prefix) (received + chunk)) none wrote.1 w
              (write_out-unflushed out received (take chunk prefix) w)
              (prefix_loop-unflushed fuel out size (drop chunk prefix) (received + chunk) wrote.1))
    ]

exact_by-unflushed :
    (out : Option Bytes) (received : ℕ) (again : ℕ → M Bool) (o : Option Bytes) (w : World)
    → ((n : ℕ) (v : World) → (again n v).1.unflushed ≡ v.unflushed)
    → (exact_by out received again o w).1.unflushed ≡ w.unflushed
unfolding exact_by
exact_by-unflushed out received again none w k = refl
exact_by-unflushed out received again (some []) w k = refl
exact_by-unflushed out received again (some (c ∷ cs)) w k =
    let wrote = write_out out received (c ∷ cs) w in
    if_good-unflushed wrote.0 (again (received + length (c ∷ cs))) false wrote.1 w
      (write_out-unflushed out received (c ∷ cs) w) (k (received + length (c ∷ cs)) wrote.1)

exact_loop-unflushed :
    (fuel sock : ℕ) (out : Option Bytes) (size received : ℕ) (w : World)
    → (exact_loop fuel sock out size received w).1.unflushed ≡ w.unflushed
unfolding exact_loop recv
exact_loop-unflushed zero sock out size received w = refl
exact_loop-unflushed (suc fuel) sock out size received w = elim (Bool-cases (ltb received size)) [
  | inr done ↦ rw (done, exact_loop) refl
  | inl more ↦
      let got = recv sock (min (size - received) 8192) w in
      rw (more, exact_loop)
        (exact_by-unflushed out received (exact_loop fuel sock out size) got.0 got.1
          λ n v. exact_loop-unflushed fuel sock out size n v)
]

exact_rest-unflushed :
    (sock : ℕ) (out : Option Bytes) (size : ℕ) (received : Option ℕ) (w : World)
    → (exact_rest sock out size received w).1.unflushed ≡ w.unflushed
unfolding exact_rest
exact_rest-unflushed sock out size none w = refl
exact_rest-unflushed sock out size (some received) w =
    exact_loop-unflushed (suc size) sock out size received w

pub recv_exact-unflushed :
    (sock size : ℕ) (prefix : Bytes) (out : Option Bytes) (w : World)
    → (recv_exact sock size prefix out w).1.unflushed ≡ w.unflushed
unfolding recv_exact
recv_exact-unflushed sock size prefix out w =
    let run = prefix_loop (suc (length prefix)) out size prefix 0 w in
    exact_rest-unflushed sock out size run.0 run.1
    ∙ prefix_loop-unflushed (suc (length prefix)) out size prefix 0 w
