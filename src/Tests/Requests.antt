-- ===== src/Tests/Requests.antt =====
-- Requests, as a client of the server sends them.
use chopserver.Base.{◌+◌, ◌≡◌, refl, inl}
use chopserver.Structs.{Ref}
use chopserver.Machine.Leads.{Leads}
use chopserver.Manage.Request.{process_request}
use chopserver.Manage.Request.Keeps.{Keeps, process_request-Keeps}
use chopserver.Manage.Request.Flags.{HasFlag, process_request-HasFlag}
use chopserver.Manage.Request.Balance.{process_request-balance}
use chopserver.Stable.Rules.{Within}
use chopserver.Tests.Peers.{receiving, receiving-IsQuiet, text_message, idle_message}

process_request-Keeps_example :
    Leads
      (λ _. Within Keeps (receiving text_message))
      (process_request Ref.here Ref.here (receiving text_message))
process_request-Keeps_example = process_request-Keeps Ref.here Ref.here (receiving text_message)

process_request-HasFlag_example :
    Leads (λ _. HasFlag) (process_request Ref.here Ref.here (receiving idle_message))
process_request-HasFlag_example =
    process_request-HasFlag Ref.here Ref.here (receiving idle_message) (inl refl)

process_request-balance_example :
    Leads
      (λ _ c'. c'.env.allocated + 0 ≡ 0 + c'.env.freed)
      (process_request Ref.here Ref.here (receiving text_message))
process_request-balance_example =
    process_request-balance Ref.here Ref.here (receiving text_message)
      (receiving-IsQuiet text_message)
