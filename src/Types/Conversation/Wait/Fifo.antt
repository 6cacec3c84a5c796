-- ===== src/Types/Conversation/Wait/Fifo.antt =====
-- The order in which the waits of types/conversation.go hand out what is queued.
use telegram_mcub_go.Base.{
  suc, List, [], ◌∷◌, ◌++◌, Bool, true, false, ◌≡◌, refl, ap, ◌∙◌, All, length, replicate,
  if◌then◌else◌,
}
use telegram_mcub_go.Types.Conversation.{Message, Conversation, conversation_cancelled}
use telegram_mcub_go.Types.Conversation.Wait.{
  Wake, receives, got, stopped, wait_loop, wait, wait_message,
}

wait_loop-first :
    (pred : Message → Bool) (m : Message) (rest : List Message) (ws : List Wake)
    → pred m ≡ true
    → (refused : List Message) (c : Conversation) → c.incoming ≡ refused ++ m ∷ rest
    → All (λ x. pred x ≡ false) refused
    → wait_loop
        (λ c. c.incoming)
        (λ c q. record c { incoming = q })
        pred
        (replicate (suc (length refused)) receives ++ ws)
        c
      ≡ (got m, record c { incoming = rest })
unfolding wait_loop
wait_loop-first pred m rest ws fits [] c queued none_fits = rw (queued, fits) refl
wait_loop-first pred m rest ws fits (x ∷ refused) c queued (misfit, none_fits) =
    rw (queued, misfit)
      (wait_loop-first pred m rest ws fits refused (record c { incoming = refused ++ m ∷ rest })
        refl none_fits)

-- On a conversation that is not cancelled, a wait for a message that `pred` accepts returns the first
-- accepted message of the queue as soon as it has received that one; the refused messages before
-- it are gone, and those behind it stay queued in their order.
pub wait_message-first :
    (pred : Message → Bool) (refused : List Message) (m : Message) (rest : List Message)
    (ws : List Wake) (c : Conversation)
    → c.cancelled ≡ false
    → c.incoming ≡ refused ++ m ∷ rest
    → All (λ x. pred x ≡ false) refused
    → pred m ≡ true
    → wait_message pred (replicate (suc (length refused)) receives ++ ws) c
      ≡ (got m, record c { incoming = rest })
unfolding wait_message wait
wait_message-first pred refused m rest ws c open_still queued none_fits fits =
    ap
      (λ closed.
        if closed
        then (stopped conversation_cancelled, c)
        else wait_loop (λ c. c.incoming) (λ c q. record c { incoming = q }) pred
            (replicate (suc (length refused)) receives ++ ws) c)
      open_still
    ∙ wait_loop-first pred m rest ws fits refused c queued none_fits
