-- ===== src/Tests/Server.antt =====
-- The theorems on server.c at concrete inputs.
use objmapper.Base.{true, some, none, List, [], ◌∷◌}
use objmapper.Protocol.Types.{Cell, byte}
use objmapper.Protocol.Handshake.{server_create, server_handshake}
use objmapper.Backend.Registry.Roles.{HasRoles}
use objmapper.Backend.Confinement.{IsConfined}
use objmapper.Server.State.{count_connection, World, RequestAnswers}
use objmapper.Server.Handlers.{hello, client_thread}
use objmapper.Server.Accounts.Requests.{IsAccounted}
use objmapper.Server.Accounts.{
  requests_in, thread_receives, thread_broken, client_thread-IsAccounted,
}
use objmapper.Server.Confinement.{client_thread-IsConfined}
use objmapper.Backend.Objects.Scan.{file, end, item}
use objmapper.Server.Setup.{SetupAnswers, init_backends}
use objmapper.Server.Start.{IsStarted, init_backends-IsStarted}
use objmapper.Tests.Backend.{
  no_entries, two_backends, opened, two_backends-HasRoles, nothing-IsConfined,
}

-- A V1 client asks for the object "/a", with descriptors passed.
abbrev input : List Cell
input = byte b'1' ∷ byte 0 ∷ byte 2 ∷ byte b'/' ∷ byte b'a' ∷ []

abbrev world : World
world = record {
  stats = record {
    requests_total = 3;
    gets = 1;
    puts = 1;
    deletes = 0;
    errors = 1;
    active_connections = 0;
  };
  manager = two_backends;
  memory = no_entries;
  connection = server_create input 100;
}

abbrev answers : List RequestAnswers
answers =
    record {
      checked = opened;
      checked_at = 1;
      got = opened;
      got_at = 2;
      deleted = opened;
      made = λ path. true;
      created = some 6;
    }
    ∷ []

client_thread-IsAccounted_example :
    (let connected = count_connection 1 world in
      let shook = server_handshake hello connected.connection in
      let os = thread_receives shook.0 answers (record connected { connection = shook.1 }) in
      IsAccounted
        (requests_in os)
        (thread_broken shook.0 os)
        world.stats
        (client_thread answers world).stats)
client_thread-IsAccounted_example = client_thread-IsAccounted answers world

client_thread-IsConfined_example :
    HasRoles (client_thread answers world).manager
    × IsConfined (client_thread answers world).manager (client_thread answers world).memory
client_thread-IsConfined_example =
    client_thread-IsConfined answers world two_backends-HasRoles nothing-IsConfined

-- One file of 5 bytes is on the disk.
abbrev setup : SetupAnswers
setup = record {
  stale = [];
  memory_file = none;
  persistent_file = none;
  memory_listing = end;
  persistent_listing = item (b'f' ∷ []) (file 5) end;
  thread_created = true;
}

init_backends-IsStarted_example :
    IsStarted (init_backends setup (b'/' ∷ b'm' ∷ []) (b'/' ∷ b's' ∷ []) no_entries)
init_backends-IsStarted_example =
    init_backends-IsStarted setup (b'/' ∷ b'm' ∷ []) (b'/' ∷ b's' ∷ []) no_entries
