-- ===== src/Conftool.antt =====
-- conftool/conftool.go: reading a configuration file, with the values of environment variables, and
-- the `default` and `required` tags of a configuration struct. The struct is a tree of its fields in
-- place of reflection.
pub mod Fields
pub mod EnvVars
