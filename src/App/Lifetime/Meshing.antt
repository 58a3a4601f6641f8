-- ===== src/App/Lifetime/Meshing.antt =====
-- The options of the mesh are those of the daemon's configuration.
use clippy.Base.Bytes.{Bytes}
use clippy.Netmesh.Options.{Options}
use clippy.App.Config.{Config}
