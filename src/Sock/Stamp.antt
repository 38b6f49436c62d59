-- ===== src/Sock/Stamp.antt =====
-- The start times of a packet: `insert_start_time_of_packet` and `get_start_time_of_packet`.
use band_width_limiter.Base.{
  ◌≡◌, refl, sym, ap, ◌∙◌, Bool, true, false, Option, none, some, ◌⊎◌, inl, inr, Option-cases,
  eq_of_some, if◌then◌else◌,
}
use band_width_limiter.Base.Int.{ℤ, pos}
use band_width_limiter.Tree.Order.{fd_ord}
use band_width_limiter.Tree.Shape.{Pointer, set_info}
use band_width_limiter.Tree.Query.{rb_exact_query}
use band_width_limiter.Tree.Table.Keys.{update, update-cases, update_self}
use band_width_limiter.Tree.Table.Laws.{find, info_of, find-set_info}
use band_width_limiter.Tree.Table.Count.{count_in-set_info}
use band_width_limiter.Sock.{
  Timespec, AcpSocketFd, SockStruct, stamp, insert_start_time_of_packet, get_start_time_of_packet,
}
use band_width_limiter.Sock.Invariant.{IsValid, has_root}

stamp-root :
    (flag : Bool) (time : Timespec) (a : AcpSocketFd)
    → (stamp flag time a).root_fd_number ≡ a.root_fd_number
stamp-root true time a = refl
stamp-root false time a = refl

-- The root of a descriptor is the same after the write.
stamped-linked :
    (f : ℤ → Option AcpSocketFd) (fd : ℤ) (flag : Bool) (time : Timespec) (a b : AcpSocketFd)
    (q : ℤ)
    → f fd ≡ some a
    → update f fd (some (stamp flag time a)) q ≡ some b
    → (c : AcpSocketFd) × (f q ≡ some c) × (c.root_fd_number ≡ b.root_fd_number)
stamped-linked f fd flag time a b q at e = elim (update-cases f fd (some (stamp flag time a)) q) [
  | inl (same, got) ↦ (
    a,
    ap f (sym same) ∙ at,
    sym (stamp-root flag time a) ∙ ap (λ x. x.root_fd_number) (eq_of_some (sym got ∙ e)),
  )
  | inr (other, got) ↦ (b, sym got ∙ e, refl)
]

abbrev Timed : SockStruct → ℤ → Bool → Timespec → SockStruct × Bool → Type 0
Timed s fd flag time (s', b) =
    IsValid s'
    × (s'.sock_rb ≡ s.sock_rb)
    × (((a : AcpSocketFd) × (find s.acp_socket_rb fd ≡ some a)
          × (b ≡ true)
          × ((q : ℤ)
              → find s'.acp_socket_rb q
                ≡ update (find s.acp_socket_rb) fd (some (stamp flag time a)) q))
        ⊎ ((find s.acp_socket_rb fd ≡ none) × (b ≡ false) × (s' ≡ s)))

-- In a valid state `insert_start_time_of_packet` leaves a valid state with the same roots. An
-- accepted descriptor gets the time in the direction, the other descriptors are as before, and the
-- result is true; for any other descriptor nothing changes and the result is false.
insert_start_time_of_packet-Timed :
    (s : SockStruct) (fd : ℤ) (flag : Bool) (time : Timespec)
    → IsValid s
    → Timed s fd flag time (insert_start_time_of_packet s fd flag time)
unfolding insert_start_time_of_packet
insert_start_time_of_packet-Timed s fd flag time v = go (rb_exact_query s.acp_socket_rb fd) refl
  where
    go :
        (o : Option (Pointer (ℤ × AcpSocketFd)))
        → rb_exact_query s.acp_socket_rb fd ≡ o
        → Timed s fd flag time (elim o [
          | none ↦ (s, false)
          | some node ↦
              (record s { acp_socket_rb = set_info node (stamp flag time node.entry.1) }, true)
        ])
    go none e = (v, refl, inr (ap info_of e, refl, refl))
    go (some node) e =
        let a = node.entry.1 in
        let (table, reads) =
          find-set_info s.acp_socket_rb fd node (stamp flag time a) v.accepted e in
        (
          record {
            roots = v.roots;
            accepted = table;
            linked = λ q b at.
                let (c, old, same) =
                  stamped-linked (find s.acp_socket_rb) fd flag time a b q (ap info_of e)
                    (sym (reads q) ∙ at) in
                let (r, root) = v.linked q c old in (r, ap (find s.sock_rb) (sym same) ∙ root);
            counted = λ q r root.
                v.counted q r root
                ∙ ap pos (
                    sym (
                      count_in-set_info (has_root q) s.acp_socket_rb fd node (stamp flag time a) e (
                        ap (λ x. has_root q (record a { root_fd_number = x }))
                          (stamp-root flag time a))));
          },
          refl,
          inl (a, ap info_of e, refl, reads),
        )

-- What is read of a descriptor.
get_start_time-find :
    (s : SockStruct) (fd : ℤ) (flag : Bool) (a : AcpSocketFd)
    → find s.acp_socket_rb fd ≡ some a
    → get_start_time_of_packet s fd flag
      ≡ some (if flag then a.start_time_active_read else a.start_time_active_write)
unfolding get_start_time_of_packet
get_start_time-find s fd flag a h = elim (Option-cases (rb_exact_query s.acp_socket_rb fd)) [
  | inl e ↦ absurd (cc (sym h ∙ ap info_of e))
  | inr (node, e) ↦
      rw (get_start_time_of_packet, e)
        (ap (λ x. some (if flag then x.start_time_active_read else x.start_time_active_write))
          (eq_of_some (sym (ap info_of e) ∙ h)))
]

stamp_read :
    (flag : Bool) (time : Timespec) (a : AcpSocketFd)
    → (if flag
        then (stamp flag time a).start_time_active_read
        else (stamp flag time a).start_time_active_write)
      ≡ time
stamp_read true time a = refl
stamp_read false time a = refl

-- In a valid state, the time inserted for an accepted descriptor and a direction is the time that
-- is read of them.
pub get_start_time-insert_start_time :
    (s : SockStruct) (fd : ℤ) (flag : Bool) (time : Timespec) (a : AcpSocketFd)
    → IsValid s
    → find s.acp_socket_rb fd ≡ some a
    → get_start_time_of_packet (insert_start_time_of_packet s fd flag time).0 fd flag ≡ some time
get_start_time-insert_start_time s fd flag time a v at =
    let (_, _, timed) = insert_start_time_of_packet-Timed s fd flag time v in
    elim timed [
      | inl (b, _, _, reads) ↦
          get_start_time-find (insert_start_time_of_packet s fd flag time).0 fd flag
            (stamp flag time b)
            (reads fd ∙ update_self (find s.acp_socket_rb) fd (some (stamp flag time b)))
          ∙ ap some (stamp_read flag time b)
      | inr (absent, _, _) ↦ absurd (cc (sym at ∙ absent))
    ]
