-- ===== src/Ini.antt =====
-- comLib/IniFile.h and IniFile.cpp: IniFile, sections of keys and values in a text file.
pub mod Dict
pub mod Settings
pub mod Parse
pub mod Lookup
pub mod Reread
pub mod Maps
pub mod Restore
