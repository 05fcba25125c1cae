-- ===== src/Broker/System/Calls.antt =====
-- A call on the handles of a channel, against a call on its bounded queue.
use mathlib.Core.Path.{subst}
use mathlib.Core.Option.{some-injective}
use omni_mailbox.Base.{
  ℕ, ◌≡◌, ◌≢◌, refl, sym, ap, ◌∙◌, Bool-cases, Option-cases, inl, inr, none, some, if◌then◌else◌,
  ◌==◌, ==→eq, eq→==, arith,
}
use omni_mailbox.Fifo.{view}
use omni_mailbox.Channel
use omni_mailbox.Channel.{Channel, Call, fifo_step}
use omni_mailbox.Channel.Refine.{ChannelIsValid, step_refines}
use omni_mailbox.Broker.{Broker, ChannelPair, put}
use omni_mailbox.Broker.Registry.{put_same, put_other}
use omni_mailbox.Broker.Request.{channel_of}
use omni_mailbox.Broker.Invariant.{put-IsValid}
use omni_mailbox.Broker.System.{
  System, Answer, call, replied, no_handle, mailbox_step, on_channel, call_on, hand_out, is_there,
  seen,
}
use omni_mailbox.Broker.System.Kept.{Usable, SystemIsValid, usable_over, same_mailboxes, view-put}

module _ (s : System) (v : SystemIsValid s) (x : Call) where
  -- The same answer, and a system that is seen as the specification says.
  abbrev CallAgrees : ℕ → Answer × System → Type 0
  CallAgrees a o = ((o.0, seen o.1) ≡ mailbox_step (call a x) (seen s)) × SystemIsValid o.1

  missing : (a : ℕ) → s.handles a ≡ none → CallAgrees a (no_handle, s)
  unfolding mailbox_step
  missing a e = (rw e refl, v)

  module _ (a : ℕ) (h : ChannelPair) (e : s.handles a ≡ some h) where
    ours : Usable s.broker a h
    ours = v.handles_usable a h e

    abbrev after : Channel
    after = (Channel.step x (channel_of s.broker h)).1

    boxes_after :
        (y : ℕ)
        → view (put h.queue after.queue s.broker.store y)
          ≡ (if y == a then (fifo_step x (view (s.broker.store a))).1 else view (s.broker.store y))
    boxes_after y =
        view-put h.queue after.queue s.broker.store y
        ∙ ap (λ k. if y == k then view after.queue else view (s.broker.store y)) ours.place
        ∙ ap (λ f. if y == a then f else view (s.broker.store y))
            (ap (λ z. z.1) (step_refines (channel_of s.broker h) ours.usable x).0
              ∙ ap (λ k. (fifo_step x (view (s.broker.store k))).1) ours.place)

    opened_after :
        (h' : ChannelPair)
        → h'.queue ≡ h.queue
        → (y : ℕ) → is_there (hand_out (some h') s.handles y) ≡ is_there (s.handles y)
    opened_after h' same y = elim (Bool-cases (y == h'.queue)) [
      | inr other ↦ rw other refl
      | inl this ↦
          rw this (sym (ap is_there (ap s.handles (==→eq y h'.queue this ∙ same ∙ ours.place) ∙ e)))
    ]

    -- The handle as the call leaves it.
    abbrev handle : ChannelPair
    handle = record { queue = h.queue; producer = after.producer; consumer = after.consumer }

    abbrev broker_after : Broker
    broker_after = record s.broker { store = put h.queue after.queue s.broker.store }

    handle-Usable : (y : ℕ) → y ≡ h.queue → ChannelIsValid after → Usable broker_after y handle
    handle-Usable y this valid = record {
      place = sym this;
      below = omega (arith, this, ours.place, ours.below);
      usable =
          usable_over after (put h.queue after.queue s.broker.store h.queue) valid
            (rw (put_same h.queue after.queue s.broker.store) valid.queue_valid);
    }

    other-Usable :
        (y : ℕ) (k : ChannelPair) → y ≢ h.queue → Usable s.broker y k → Usable broker_after y k
    other-Usable y k ne u = record {
      place = u.place;
      below = u.below;
      usable =
          usable_over (channel_of s.broker k) (put h.queue after.queue s.broker.store k.queue)
            u.usable
            (rw
              (put_other h.queue k.queue after.queue s.broker.store
                (λ same. ne (sym (same ∙ u.place))))
              u.usable.queue_valid);
    }

    called-IsValid : ChannelIsValid after → SystemIsValid (on_channel x s h).1
    called-IsValid valid = record {
      broker_valid = put-IsValid s.broker h.queue after.queue v.broker_valid valid.queue_valid;
      handles_usable = λ y k found. elim (Bool-cases (y == h.queue)) [
        | inl this ↦
            subst (Usable broker_after y) (some-injective _ _ (rw this at found))
              (handle-Usable y (==→eq y h.queue this) valid)
        | inr other ↦
            other-Usable y k (λ same. let t = eq→== y h.queue same in cc)
              (v.handles_usable y k (rw other at found))
      ];
    }

    called : CallAgrees a (on_channel x s h)
    unfolding mailbox_step
    called =
        let (same, valid) = step_refines (channel_of s.broker h) ours.usable x in
        let reply : (Channel.step x (channel_of s.broker h)).0
            ≡ (fifo_step x (view (s.broker.store a))).0 =
          ap (λ z. z.0) same ∙ ap (λ k. (fifo_step x (view (s.broker.store k))).0) ours.place in
        (
          rw e (λ i. (
            replied (reply i),
            same_mailboxes (seen (on_channel x s h).1)
                (record (seen s) {
                  boxes = λ y.
                      if y == a
                      then (fifo_step x (view (s.broker.store a))).1
                      else view (s.broker.store y);
                })
                boxes_after (opened_after handle refl) (λ n. refl) (λ y. refl) refl refl refl i,
          )),
          called-IsValid valid,
        )

  pub call_agrees : (a : ℕ) → CallAgrees a (call_on (s.handles a) x s)
  call_agrees a = elim (Option-cases (s.handles a)) [
    | inl e ↦ rw e (missing a e)
    | inr (h, e) ↦ rw e (called a h e)
  ]
