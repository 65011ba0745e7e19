-- ===== src/TcpTalk/Endings.antt =====
-- The sockets that the servers of socket/tcptest close.
use git.Base.{
  ℕ, ◌≡◌, refl, ◌⊎◌, inl, inr, Bool, true, false, Option, none, some, List, [], ◌∷◌, if◌then◌else◌,
  ltb, length, ap,
}
use git.Base.Bytes.{cut_text, Bytes, codes}
use git.Io.{print, close, running, ended, crashed, Trace, trace, after, closed}
use git.TcpTalk.Programs.{
  listener, buf_size, is_quit, text_of, talk, fun, child, Forked, in_parent, accept_loop,
}

-- A talk goes on or crashes, with nothing closed, or ends as what follows `break` says.
unfoldable EndsWith : Trace → Trace → Type 0
EndsWith quit t =
    ((closed t.acts ≡ []) × ((t.status ≡ running) ⊎ (t.status ≡ crashed)))
    ⊎ ((closed t.acts ≡ closed quit.acts) × (t.status ≡ quit.status))

EndsWith-if :
    (quit : Trace) (b : Bool) (t u : Trace)
    → EndsWith quit t
    → EndsWith quit u
    → EndsWith quit (if b then t else u)
EndsWith-if quit true t u h h' = h
EndsWith-if quit false t u h h' = h'

EndsWith-option :
    (quit : Trace) (o : Option Bytes) (t : Trace) (u : Bytes → Trace)
    → EndsWith quit t
    → ((str : Bytes) → EndsWith quit (u str))
    → EndsWith quit (elim o [ none ↦ t | some str ↦ u str ])
EndsWith-option quit none t u h h' = h
EndsWith-option quit (some str) t u h h' = h' str

talk-EndsWith :
    (fd : ℕ) (quit : Trace) (rounds : List (Option Bytes × Option Bytes))
    → EndsWith quit (talk fd quit rounds)
unfolding talk EndsWith closed
talk-EndsWith fd quit [] = inl (refl, inl refl)
talk-EndsWith fd quit ((got, typed) ∷ rest) =
    EndsWith-if quit (ltb (length (text_of got)) buf_size) _ _
      (EndsWith-option quit (cut_text (text_of typed)) _ _ (inl (refl, inr refl)) (λ str.
        EndsWith-if quit (is_quit str) (after (print (codes "quit") ∷ []) quit) _ (inr (refl, refl))
          (talk-EndsWith fd quit rest)))
      (inl (refl, inr refl))

-- Whatever the client and the operator say, a thread of s1.c that ends has closed its client's socket
-- and no other. A child of s.c that ends has closed the listening socket and descriptor 0 and no other,
-- and returns 3. Until they end, the thread has closed nothing and the child the listening socket.
client_socket-closed :
    (client_sock : ℕ) (rounds : List (Option Bytes × Option Bytes))
    → let thread : Trace = fun client_sock rounds in
      let process : Trace = child client_sock rounds in
      (((closed thread.acts ≡ []) × ((thread.status ≡ running) ⊎ (thread.status ≡ crashed)))
        ⊎ ((closed thread.acts ≡ client_sock ∷ []) × (thread.status ≡ ended 0)))
      × (((closed process.acts ≡ listener ∷ [])
            × ((process.status ≡ running) ⊎ (process.status ≡ crashed)))
          ⊎ ((closed process.acts ≡ listener ∷ 0 ∷ []) × (process.status ≡ ended 3)))
unfolding fun child closed EndsWith
client_socket-closed client_sock rounds =
    let stop : Trace = trace (close 0 ∷ print (codes "accept()") ∷ []) (ended 3) in
    (
      talk-EndsWith client_sock (trace (close client_sock ∷ []) (ended 0)) rounds,
      elim (talk-EndsWith client_sock stop rounds) [
        | inl (e, s) ↦ inl (ap (λ (fds : List ℕ). listener ∷ fds) e, s)
        | inr (e, s) ↦ inr (ap (λ (fds : List ℕ). listener ∷ fds) e, s)
      ],
    )

-- The clients of which the parent gets a child, each with its socket, its address and the child.
abbrev forks : List (ℕ × Bytes × ℕ) → List (Option (ℕ × Bytes × Forked))
forks [] = []
forks ((fd, peer, pid) ∷ rest) = some (fd, peer, in_parent pid) ∷ forks rest

abbrev pids : List (ℕ × Bytes × ℕ) → List ℕ
pids [] = []
pids ((fd, peer, pid) ∷ rest) = pid ∷ pids rest

-- When every `accept` and `fork` succeeds, the parent of s.c closes the descriptors numbered as its
-- children, one for each client and no other, and goes on accepting.
accept_loop-closes_pids :
    (clients : List (ℕ × Bytes × ℕ))
    → (closed (accept_loop (forks clients)).acts ≡ pids clients)
      × ((accept_loop (forks clients)).status ≡ running)
unfolding accept_loop closed
accept_loop-closes_pids [] = (refl, refl)
accept_loop-closes_pids ((fd, peer, pid) ∷ rest) =
    let (e, s) = accept_loop-closes_pids rest in (ap (λ (l : List ℕ). pid ∷ l) e, s)
